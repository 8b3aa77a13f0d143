-- ===== src/Security.antt =====
-- The approval of incoming connections: src/security/SecurityManager.cpp.
-- Two kinds of threads meet here. A protocol thread runs `checkConnection` and sleeps on the request's
-- semaphore; the Qt thread runs what was queued for it, `resolveApproval` and `checkConnectionAsync`.
-- The state holds the requests themselves (the `shared_ptr`s), the two hash maps, what is queued for
-- the Qt thread, and a record of what the manager has told its callers. Request identifiers are
-- numbers; the UUIDs that the code draws are assumed to be new (`fresh` below).
pub mod Network
pub mod Steps
pub mod Answers
use air_show.Prelude.{
  ℕ, zero, suc, ◌+◌, ◌-◌, Bool, true, false, not, ◌&&◌, ◌||◌, List, [], ◌∷◌, ◌++◌, Option, none,
  some, if◌then◌else◌, ltb, ◌==◌, is_empty, ◌≡◌,
}
use air_show.Settings.{
  Text, AppSettings, require_approval, trusted_devices, add_trusted_device, contains, pin_enabled,
  pin,
}

-- `semaphore` counts the releases that no `tryAcquire` has taken yet.
pub record ApprovalRequest : Type 0 where
  pub device_name : Text
  pub protocol : Text
  pub device_identifier : Text
  pub semaphore : ℕ
  pub approved : Bool

-- What the caller of request `id` is told: by the value that `checkConnection` returns or by its
-- callback, at once on a fast path or after a prompt.
pub data Told : Type 0 where
  admitted : ℕ → Told
  returned : ℕ → Bool → Told
  called_back : ℕ → Bool → Told

-- `requests` is the heap of request objects by identifier. `pending` and `async` are the keys of
-- `m_pendingRequests` and `m_asyncCallbacks`: the value under a key is the request, or the callback,
-- of that identifier. `prompts` is what `requestApproval` has emitted.
pub record Manager : Type 0 where
  pub settings : AppSettings
  pub requests : List (ℕ × ApprovalRequest)
  pub queued : List ℕ
  pub pending : List ℕ
  pub async : List ℕ
  pub prompts : List ℕ
  pub told : List Told

abbrev pub has : List ℕ → ℕ → Bool
has [] id = false
has (x ∷ ids) id = id == x || has ids id

abbrev pub remove : List ℕ → ℕ → List ℕ
remove [] id = []
remove (x ∷ ids) id = if id == x then ids else x ∷ remove ids id

abbrev pub request : List (ℕ × ApprovalRequest) → ℕ → Option ApprovalRequest
request [] id = none
request ((k, r) ∷ rest) id = if id == k then some r else request rest id

-- A write through the `shared_ptr`.
abbrev pub set_request :
    List (ℕ × ApprovalRequest) → ℕ → ApprovalRequest → List (ℕ × ApprovalRequest)
set_request [] id v = []
set_request ((k, r) ∷ rest) id v = if id == k then (k, v) ∷ rest else (k, r) ∷ set_request rest id v

unfoldable pub is_trusted : AppSettings → Text → Bool
is_trusted s id = if is_empty id then false else contains (trusted_devices s) id

-- The two fast paths, which both variants begin with.
unfoldable pub admits : AppSettings → Text → Bool
unfolding is_trusted
admits s device = if not (require_approval s) then true else is_trusted s device

-- `checkConnection` up to where it sleeps. `id` is the new request's identifier. On a fast path it
-- returns; otherwise the request is made and the prompt is queued for the Qt thread.
unfoldable pub check_connection : ℕ → Text → Text → Text → Manager → Manager
unfolding admits
check_connection id name protocol device m =
    if admits m.settings device then record m { told = admitted id ∷ m.told } else record m {
      requests =
          (
            id,
            record {
              device_name = name;
              protocol = protocol;
              device_identifier = device;
              semaphore = 0;
              approved = false;
            },
          )
          ∷ m.requests;
      queued = m.queued ++ (id ∷ []);
    }

-- The queued lambda, on the Qt thread: the request becomes pending, and the prompt is shown.
unfoldable pub run_queued : Manager → List ℕ → Manager
run_queued m [] = m
run_queued m (id ∷ rest) = record m {
  queued = rest;
  pending = id ∷ m.pending;
  prompts = id ∷ m.prompts;
}

-- The rest of `checkConnection`, when `tryAcquire` returns: with a release taken, or by its timeout.
unfoldable pub wake : ℕ → Manager → Manager
wake id m = elim (request m.requests id) [
  | none ↦ m
  | some r ↦
      if ltb 0 r.semaphore
      then record m {
        requests = set_request m.requests id (record r { semaphore = r.semaphore - 1 });
        told = returned id r.approved ∷ m.told;
      }
      else record m { told = returned id false ∷ m.told }
]

unfoldable pub check_connection_async : ℕ → Text → Manager → Manager
unfolding admits
check_connection_async id device m =
    if admits m.settings device
    then record m { told = admitted id ∷ m.told }
    else record m { async = id ∷ m.async; prompts = id ∷ m.prompts }

-- The sync branch of `resolveApproval`, for the request found under the identifier.
unfoldable pub resolve_sync : ℕ → Bool → ApprovalRequest → Manager → Manager
resolve_sync id approved r m = record m {
  pending = remove m.pending id;
  settings =
      if approved && not (is_empty r.device_identifier)
      then add_trusted_device r.device_identifier m.settings
      else m.settings;
  requests =
      set_request m.requests id (record r { approved = approved; semaphore = r.semaphore + 1 });
}

unfoldable pub resolve_approval : ℕ → Bool → Manager → Manager
unfolding resolve_sync
resolve_approval id approved m =
    if has m.pending id
    then (elim (request m.requests id) [ none ↦ m | some r ↦ resolve_sync id approved r m ])
    else if has m.async id
    then record m { async = remove m.async id; told = called_back id approved ∷ m.told }
    else m

-- What can happen, on any thread: a request comes in, the Qt thread runs what is queued, a sleeping
-- `checkConnection` wakes (by a release or by its timeout), the user answers a prompt, or the user
-- edits the settings.
pub data Event : Type 0 where
  call : ℕ → Text → Text → Text → Event
  call_async : ℕ → Text → Event
  run : Event
  waking : ℕ → Event
  answer : ℕ → Bool → Event
  configure : AppSettings → Event

unfoldable pub apply : Event → Manager → Manager
unfolding check_connection check_connection_async run_queued wake resolve_approval
apply (call id name protocol device) m = check_connection id name protocol device m
apply (call_async id device) m = check_connection_async id device m
apply run m = run_queued m m.queued
apply (waking id) m = wake id m
apply (answer id approved) m = resolve_approval id approved m
apply (configure s) m = record m { settings = s }

-- An interleaving of the threads, in the order in which things happen.
unfoldable pub history : Manager → List Event → Manager
history m [] = m
history m (e ∷ es) = history (apply e m) es

abbrev pub fresh : AppSettings → Manager
fresh s = record {
  settings = s;
  requests = [];
  queued = [];
  pending = [];
  async = [];
  prompts = [];
  told = [];
}

unfoldable pub is_pin_enabled : Manager → Bool
is_pin_enabled m = pin_enabled m.settings

unfoldable pub pin_of : Manager → Text
pin_of m = pin m.settings
