-- ===== src/Ledger/Authorizations/ReadBack.antt =====
-- What `get_authorization` makes of the items that the other methods write.
use pay_ledger.Prelude.{ℕ, ◌≡◌, refl, some}
use pay_ledger.Store.Item.{str, assign}
use pay_ledger.Domain.{
  Authorization, AuthorizationStatus, pending, status_value, status_of-status_value,
}
use pay_ledger.Program.{pure}
use pay_ledger.Runtime.{Runtime}
use pay_ledger.Ledger.Authorizations.{read_authorization}
use pay_ledger.Ledger.Authorizations.Items.{authorization_item}

-- Where the times and the date of the authorization parse back from their texts.
module _ (rt : Runtime) (a : Authorization)
    (created : rt.fromisoformat (rt.isoformat a.created_at) ≡ some a.created_at)
    (expires : rt.date_fromisoformat (rt.date_isoformat a.expires_at) ≡ some a.expires_at) where
  -- Where the times and the date of an authorization parse back from their texts, the item of a new
  -- hold reads back as the hold, pending.
  pub read_authorization-authorization_item :
      rt.fromisoformat (rt.isoformat a.updated_at) ≡ some a.updated_at
      → read_authorization rt a.authorization_id (authorization_item rt a)
        ≡ pure (record a { status = pending })
  read_authorization-authorization_item updated =
      rw (created, updated, expires, status_of-status_value pending) refl

  -- Where the times and the date parse back from their texts: after a capture, a void or an expiry
  -- has set the status and the time in the item of a hold, it reads back as the authorization with
  -- this status and time, the one from which the capture or the void builds its response.
  pub read_authorization-closed :
      (status : AuthorizationStatus) (now : ℕ)
      → rt.fromisoformat (rt.isoformat now) ≡ some now
      → read_authorization rt a.authorization_id (
          assign "updated_at"
            (str (rt.isoformat now))
            (assign "status" (str (status_value status)) (authorization_item rt a)))
        ≡ pure (record a { status = status; updated_at = now })
  read_authorization-closed status now updated =
      rw (created, updated, expires, status_of-status_value status) refl
