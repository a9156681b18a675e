-- ===== src/Redis/Policy/Store/Loaders.antt =====
-- Loads of src/redis_admission/policy.rs that overlap in time: `load_policy` of every clone of a provider,
-- and the loop of the lease. A load holds the lock `loading` from before its command is sent until it
-- ends; meanwhile other clients change the policy, replies are late or lost, and loads are cut off.
use http_gateway.Prelude.{update, ℕ, suc, ◌≡◌, Option, none, some, List, [], ◌∷◌}
use http_gateway.External.Http.{Http}
use http_gateway.External.Router.{Router}
use http_gateway.External.Redis.{Reply, failed}
use http_gateway.Redis.Policy.{PolicyConfig}
use http_gateway.Redis.Policy.Store.{Snapshot, new_snapshot, load}

-- One load: not begun, waiting for the lock; or with the lock, before and after the writer executes its
-- command. `executed v` has read the value number `v` of the key.
pub data Loader : Type 0 where
  idle queued sent : Loader
  executed : (version : ℕ) → Loader

module _ (H : Http) (R : Router) (parse : List ℕ → Option PolicyConfig) (value : ℕ → Reply) where
  -- The key has had the values up to number `version`, of which `value` gives the replies. `done` are
  -- the replies that loads took in, the last one first, with the number of the value each one read.
  pub record World : Type 0 where
    pub version : ℕ
    pub loaders : ℕ → Loader
    pub holder : Option ℕ
    pub snapshot : Snapshot H R parse
    pub done : List (ℕ × Reply)

  pub data Step (w : World) : World → Type 0 where
    -- Another client changes the policy.
    change : Step w (record w { version = suc w.version })
    -- A load begins, takes the lock once nobody holds it, and sends its command.
    begin : (i : ℕ) → w.loaders i ≡ idle → Step w (record w { loaders = update w.loaders i queued })
    lock :
        (i : ℕ)
        → w.loaders i ≡ queued
        → w.holder ≡ none
        → Step w (record w { loaders = update w.loaders i sent; holder = some i })
    execute :
        (i : ℕ)
        → w.loaders i ≡ sent
        → Step w (record w { loaders = update w.loaders i (executed w.version) })
    -- The reply arrives: the load ends, and the lock is free.
    finish :
        (i v : ℕ)
        → w.loaders i ≡ executed v
        → Step w (record w {
          loaders = update w.loaders i idle;
          holder = none;
          snapshot = (load H R parse w.snapshot (some (value v))).1;
          done = (v, value v) ∷ w.done;
        })
    -- The client fails, before or after the command is executed.
    fail :
        (i : ℕ)
        → w.holder ≡ some i
        → Step w (record w {
          loaders = update w.loaders i idle;
          holder = none;
          snapshot = (load H R parse w.snapshot (some failed)).1;
        })
    -- The time of a load is over, in the queue or with the lock.
    cut :
        (i : ℕ)
        → w.loaders i ≡ queued
        → Step w (record w {
          loaders = update w.loaders i idle;
          snapshot = (load H R parse w.snapshot none).1;
        })
    cut_holder :
        (i : ℕ)
        → w.holder ≡ some i
        → Step w (record w {
          loaders = update w.loaders i idle;
          holder = none;
          snapshot = (load H R parse w.snapshot none).1;
        })

  pub data Reach (w : World) : World → Type 0 where
    here : Reach w w
    next : {u v : World} → Reach w u → Step u v → Reach w v

  abbrev pub start : World
  start = record {
    version = 0;
    loaders = λ i. idle;
    holder = none;
    snapshot = new_snapshot H R parse;
    done = [];
  }
