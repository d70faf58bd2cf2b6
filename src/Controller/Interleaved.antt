-- ===== src/Controller/Interleaved.antt =====
-- driver/controller.go: `ControllerPublishVolume` and `ControllerUnpublishVolume` as the server runs
-- them, each in a goroutine of its own. Between two calls of the API any other request may go on;
-- `d.mux` is held around the attachment and the detachment alone, until the handler returns.
pub mod Totals
pub mod Alone
pub mod Exclusion
pub mod Progress
use scaleway_csi.Base.{
  ℕ, zero, suc, String, ◌<>◌, ◌≡◌, Bool, true, false, not, Option, none, some, List, [], ◌∷◌, ◌++◌,
  ◌==◌, length, if◌then◌else◌, Result, ok, err, Failure, status, invalid_argument, internal,
  failed_precondition, resource_exhausted,
}
use scaleway_csi.Base.Text.{same_text}
use scaleway_csi.Base.Table.{Table}
use scaleway_csi.Ids.{Zone}
use scaleway_csi.Limits.{max_volumes_per_node}
use scaleway_csi.Cloud.{
  InstanceApi, Volume, Server, ApiError, resource_not_found, other_error, api_text,
}
use scaleway_csi.Controller.Attach.{
  PublishRequest, UnpublishRequest, Target, check_publish, read_target, publish_context, missing,
}

pub data Job : Type 0 where
  publishing unpublishing : Job

pub data Request : Type 0 where
  publish : PublishRequest → Request
  unpublish : UnpublishRequest → Request

pub data Reply : Type 0 where
  published : Table String → Reply
  unpublished : Reply

-- How far a request is: before its checks, before each call of the API, before `d.mux.Lock()`, with
-- the lock before its call and after it, and at its end.
pub data Phase : Type 0 where
  begin : Request → Phase
  ask_volume : Job → Target → Phase
  ask_server wait hold : Job → Target → Volume → Phase
  leave ended : Result Failure Reply → Phase

abbrev checked_to : Job → Result Failure Target → Phase
checked_to job (ok t) = ask_volume job t
checked_to job (err f) = ended (err f)

-- An error of the API is success if it says that nothing is there.
abbrev gone_is_ended : ApiError → Phase
gone_is_ended (resource_not_found _) = ended (ok unpublished)
gone_is_ended (other_error text) = ended (err (status internal text))

abbrev unpublish_found : Target → Volume → Option String → Phase
unpublish_found t volume none = ended (ok unpublished)
unpublish_found t volume (some _) = ask_server unpublishing t volume

abbrev pub after_volume : Job → Target → Result ApiError Volume → Phase
after_volume publishing t (ok volume) = ask_server publishing t volume
after_volume publishing t (err e) =
    ended (err (missing ("volume " <> (t.volume_id <> " not found")) e))
after_volume unpublishing t (ok volume) = unpublish_found t volume volume.server
after_volume unpublishing t (err e) = gone_is_ended e

-- The tests before an attachment.
abbrev pub before_attach : Target → Volume → Server → Phase
before_attach t volume server =
    if length server.volumes == max_volumes_per_node
    then ended (err (status resource_exhausted "max number of volumes for this instance"))
    else if not (same_text volume.zone server.zone)
    then ended (err (status invalid_argument "volume and node are not in the same zone"))
    else wait publishing t volume

abbrev pub publish_found : Target → Volume → Server → Option String → Phase
publish_found t volume server none = before_attach t volume server
publish_found t volume server (some holder) =
    if same_text holder server.id
    then ended (ok (published (publish_context volume)))
    else ended (
        err (
          status failed_precondition
            ("volume " <> (t.volume_id <> (" already attached to another node " <> holder)))))

abbrev pub after_server : Job → Target → Volume → Result ApiError Server → Phase
after_server publishing t volume (ok server) = publish_found t volume server volume.server
after_server publishing t volume (err e) =
    ended (err (missing ("instance " <> (t.volume_id <> " not found")) e))
after_server unpublishing t volume (ok server) = wait unpublishing t volume
after_server unpublishing t volume (err e) = gone_is_ended e

abbrev pub after_call : Reply → Result ApiError Server → Phase
after_call reply (ok _) = leave (ok reply)
after_call reply (err e) = leave (err (status internal (api_text e)))

module _ (api : InstanceApi) (parse_zone : String → Option Zone) where
  open api use {State, get_volume, get_server, attach_volume, detach_volume}

  -- One step of a request, given whether the lock is taken: `none` if it waits for the lock or has
  -- ended.
  unfoldable pub advance : Phase → (locked : Bool) → State → Option (Phase × Bool × State)
  advance (begin (publish req)) locked w =
      some (checked_to publishing (check_publish parse_zone req), locked, w)
  advance (begin (unpublish req)) locked w =
      some (checked_to unpublishing (read_target parse_zone req.volume_id req.node_id), locked, w)
  advance (ask_volume job t) locked w =
      let (r, w') = get_volume t.volume_id t.volume_zone w in
      some (after_volume job t r, locked, w')
  advance (ask_server job t volume) locked w =
      let (r, w') = get_server t.node_id t.node_zone w in
      some (after_server job t volume r, locked, w')
  advance (wait job t volume) true w = none
  advance (wait job t volume) false w = some (hold job t volume, true, w)
  advance (hold publishing t volume) locked w =
      let (r, w') = attach_volume t.node_id t.volume_id volume.zone w in
      some (after_call (published (publish_context volume)) r, locked, w')
  advance (hold unpublishing t volume) locked w =
      let (r, w') = detach_volume t.volume_id volume.zone w in
      some (after_call unpublished r, locked, w')
  advance (leave answer) locked w = some (ended answer, false, w)
  advance (ended answer) locked w = none

  -- The requests in flight, the lock, and the state of the API.
  pub record System : Type 0 where
    pub requests : List Phase
    pub locked : Bool
    pub state : State

  -- One request goes on by one step.
  pub data Step : System → System → Type 0 where
    move :
        (before : List Phase) (p : Phase) (after : List Phase) (locked : Bool) (w : State)
        (q : Phase) (locked' : Bool) (w' : State)
        → advance p locked w ≡ some (q, locked', w')
        → Step
            (record { requests = before ++ p ∷ after; locked = locked; state = w })
            (record { requests = before ++ q ∷ after; locked = locked'; state = w' })

  -- The systems that any order of steps leads to, with the number of the steps.
  pub data Reach (start : System) : ℕ → System → Type 0 where
    here : Reach start 0 start
    then_step : {n : ℕ} {s t : System} → Reach start n s → Step s t → Reach start (suc n) t

abbrev pub all_begin : List Request → List Phase
all_begin [] = []
all_begin (r ∷ rs) = begin r ∷ all_begin rs
