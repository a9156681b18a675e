-- ===== src/Redis/Slots/Clients.antt =====
-- An acquisition of src/redis_admission.rs among others: what it has been told was granted.
use http_gateway.Prelude.{Option, none, some, List, [], ◌∷◌, ◌++◌}
use http_gateway.External.Http.{Http}
use http_gateway.External.Router.{Router}
use http_gateway.External.Json.{Json}
use http_gateway.External.Redis.{Command, Value, Reply, reply, Writer}
use http_gateway.Effects.{Always}
use http_gateway.Redis.Acquire.{Provider, send}
use http_gateway.Redis.Acquire.Granting.{Grants}
use http_gateway.Redis.Slots.{Grant, Control, idle, running, waiting, Client}
use http_gateway.Redis.Slots.Grants.{Grows}
use http_gateway.Redis.Slots.Tickets.{IsRecorded, AreRecorded, IsRecorded-Grows, AreRecorded-Grows}

module _ (H : Http) (R : Router) (J : Json) (W : Writer) (p : Provider) where
  -- An acquisition goes on as it must, and what it has been told was granted.
  abbrev pub IsOnCourse : List Grant → Control H R J → Type 0
  IsOnCourse gs idle = Unit {0}
  IsOnCourse gs (running scope path log m) =
      Always (Grants H R J p scope path) log m × AreRecorded H R J gs log
  IsOnCourse gs (waiting scope path log c k) =
      ((r : Reply) → Always (Grants H R J p scope path) (log ++ (send c, r) ∷ []) (k r))
      × AreRecorded H R J gs log

  -- So will be what the reply says that is on its way.
  abbrev pub IsTrue : List Grant → Option (Command × Option Value) → Type 0
  IsTrue gs none = Unit {0}
  IsTrue gs (some (c, none)) = Unit {0}
  IsTrue gs (some (c, some v)) = IsRecorded H R J gs (send c, reply v)

  abbrev pub IsSound : List Grant → Client H R J → Type 0
  IsSound gs c = IsOnCourse gs c.control × IsTrue gs c.flight

  pub IsOnCourse-Grows :
      (gs gs' : List Grant) (c : Control H R J) → Grows gs gs' → IsOnCourse gs c → IsOnCourse gs' c
  IsOnCourse-Grows gs gs' idle grows h = tt
  IsOnCourse-Grows gs gs' (running scope path log m) grows h =
      (h.0, AreRecorded-Grows H R J gs gs' log grows h.1)
  IsOnCourse-Grows gs gs' (waiting scope path log c k) grows h =
      (h.0, AreRecorded-Grows H R J gs gs' log grows h.1)

  IsTrue-Grows :
      (gs gs' : List Grant) (f : Option (Command × Option Value))
      → Grows gs gs'
      → IsTrue gs f
      → IsTrue gs' f
  IsTrue-Grows gs gs' none grows h = tt
  IsTrue-Grows gs gs' (some (c, none)) grows h = tt
  IsTrue-Grows gs gs' (some (c, some v)) grows h =
      IsRecorded-Grows H R J gs gs' (send c, reply v) grows h

  pub IsSound-Grows :
      (gs gs' : List Grant) (c : Client H R J) → Grows gs gs' → IsSound gs c → IsSound gs' c
  IsSound-Grows gs gs' c grows h =
      (IsOnCourse-Grows gs gs' c.control grows h.0, IsTrue-Grows gs gs' c.flight grows h.1)
