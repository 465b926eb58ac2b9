-- ===== src/Tests/Requests.antt =====
-- Numbers on their way to JSON, and the text of an answer to a body that does not validate.
use pay_ledger.Prelude.{ℕ, ◌≡◌, ◌⊎◌, refl, [], ◌∷◌, false}
use pay_ledger.Prelude.Int.{pos, negsuc}
use pay_ledger.Store.Item.{str}
use pay_ledger.Api.Common.{handle_validation_error}
use pay_ledger.Utils.Decimals.{json_default, decimal, finite, as_int, as_float, signed}
use pay_ledger.Utils.Decimals.Whole.{IsWhole, json_default-IsWhole}

-- 1050e-1 is 105.
json_default-IsWhole_example :
    ((m : ℕ) × IsWhole 1050 (negsuc 0) m
      × (json_default (decimal (finite false 1050 (negsuc 0))) ≡ as_int (signed false m)))
    ⊎ ((¬ ((m : ℕ) × IsWhole 1050 (negsuc 0) m))
        × (json_default (decimal (finite false 1050 (negsuc 0)))
            ≡ as_float (finite false 1050 (negsuc 0))))
json_default-IsWhole_example = json_default-IsWhole false 1050 (negsuc 0)

-- Two errors of a body, of which one has no location.
error_texts :
    handle_validation_error (
      record { loc = "items" ∷ "0" ∷ []; msg = "too small" }
      ∷ record { loc = []; msg = "bad" }
      ∷ [])
    ≡ (record {
      status_code = pos 400;
      body =
          ("error", str "InvalidRequest") ∷ ("message", str "items.0: too small; body: bad") ∷ [];
    })
unfolding handle_validation_error
error_texts = refl
