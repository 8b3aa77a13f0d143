-- ===== src/Security/Answers.antt =====
-- What an answer of the user does: `resolveApproval`, and the caller that it wakes.
use air_show.Prelude.{
  same_bytes_refl, ℕ, ◌+◌, ◌≡◌, Bool, true, false, List, [], ◌∷◌, some, is_empty, arith,
}
use air_show.Settings.{Text, AppSettings, contains, trusted_devices, add_trusted_device}
use air_show.Settings.Trusted.{contains-add_trusted_device}
use air_show.Security.{
  ApprovalRequest, Manager, returned, has, request, set_request, admits, wake, resolve_approval,
  Event, call, call_async, run, waking, answer, configure,
}

contains-add_trusted_device_self :
    (s : AppSettings) (id : Text) → contains (trusted_devices (add_trusted_device id s)) id ≡ true
contains-add_trusted_device_self s id =
    ground (arith, contains-add_trusted_device s id id, same_bytes_refl id)

-- When the user approves a pending request of a named device, the device is trusted: every later
-- check of it, sync or async, is admitted without a prompt.
pub resolve_approval-admits :
    (m : Manager) (id : ℕ) (r : ApprovalRequest)
    → has m.pending id ≡ true
    → request m.requests id ≡ some r
    → is_empty r.device_identifier ≡ false
    → admits (resolve_approval id true m).settings r.device_identifier ≡ true
unfolding resolve_approval admits
resolve_approval-admits m id r p e d = rw p (
    rw e
      (rw d (rw (contains-add_trusted_device_self m.settings r.device_identifier) (ground arith))))

request-set_request_self :
    (rs : List (ℕ × ApprovalRequest)) (id : ℕ) (r v : ApprovalRequest)
    → request rs id ≡ some r
    → request (set_request rs id v) id ≡ some v
request-set_request_self [] id r v h = absurd (ground arith)
request-set_request_self ((k, x) ∷ rs) id r v h = ground (arith, request-set_request_self rs id r v)

-- An answer that comes while the caller sleeps is what the caller is told when it wakes.
pub wake-resolve_approval :
    (m : Manager) (id : ℕ) (b : Bool) (r : ApprovalRequest)
    → has m.pending id ≡ true
    → request m.requests id ≡ some r
    → (wake id (resolve_approval id b m)).told ≡ returned id b ∷ m.told
unfolding wake resolve_approval
wake-resolve_approval m id b r p e =
    let found =
      request-set_request_self m.requests id r
        (record r { approved = b; semaphore = r.semaphore + 1 }) e in
    rw p (rw e (rw (found, wake) (ground arith)))

-- Anything but a call of `checkConnection` and an edit of the settings.
abbrev pub IsAsync : Event → Type 0
IsAsync (call id name protocol device) = ⊥
IsAsync (call_async id device) = Unit
IsAsync run = Unit
IsAsync (waking id) = Unit
IsAsync (answer id approved) = Unit
IsAsync (configure s) = ⊥

-- No request of `checkConnection` is queued or pending, and the settings are these.
abbrev Untouched : AppSettings → Manager → Type 0
Untouched s m = (m.queued ≡ []) × (m.pending ≡ []) × (m.settings ≡ s)
