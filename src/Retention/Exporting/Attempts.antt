-- ===== src/Retention/Exporting/Attempts.antt =====
-- What an attempt to ship does (the end of `_export_locked` of src/sutradhara/retention_journal.py).
use sutradhara.Prelude.{
  ℕ, ◌<◌, ◌≡◌, refl, sym, subst, Option, none, some, List, [], ◌∷◌, length, String, arith, ok, err,
}
use sutradhara.Retention.Journal.{HashJson, Journal, JournalError}
use sutradhara.Retention.Directory.{Listed}
use sutradhara.Retention.Shipping.{Compare, Destination, ship_segments}
use sutradhara.Retention.Exporting.{Shipment, attempt_shipping}

module _ (hash_json : HashJson) (c : Compare) (text : JournalError → String) where
  -- What an attempt to ship does: the destination after it, the count of segments and the error.
  pub data Attempted (segments : List Listed) : Option Destination → Shipment → Type 0 where
    nothing_published :
        (d : Option Destination)
        → segments ≡ []
        → Attempted segments d (record { destination = d; shipped = 0; error = none })
    no_destination :
        0 < length segments
        → Attempted segments none (record {
          destination = none;
          shipped = 0;
          error = some "no ssh_disk DR target is configured";
        })
    sent :
        (d d' : Destination) (n : ℕ)
        → ship_segments hash_json c segments d ≡ (d', ok n)
        → Attempted segments (some d) (record { destination = some d'; shipped = n; error = none })
    not_sent :
        (d d' : Destination) (e : JournalError)
        → ship_segments hash_json c segments d ≡ (d', err e)
        → Attempted segments
            (some d)
            (record { destination = some d'; shipped = 0; error = some (text e) })

  attempted_as :
      (l : Listed) (ls : List Listed) (d : Destination) (r : Journal ℕ)
      → (ship_segments hash_json c (l ∷ ls) d).1 ≡ r
      → attempt_shipping hash_json c text (l ∷ ls) (some d) ≡ (elim r [
        | ok n ↦ record {
          destination = some (ship_segments hash_json c (l ∷ ls) d).0;
          shipped = n;
          error = none;
        }
        | err x ↦ record {
          destination = some (ship_segments hash_json c (l ∷ ls) d).0;
          shipped = 0;
          error = some (text x);
        }
      ])
  unfolding attempt_shipping
  attempted_as l ls d r e = cc e

  pub attempt_shipping-Attempted :
      (segments : List Listed) (d : Option Destination)
      → Attempted segments d (attempt_shipping hash_json c text segments d)
  unfolding attempt_shipping
  attempt_shipping-Attempted [] d = nothing_published d refl
  attempt_shipping-Attempted (l ∷ ls) none = no_destination (omega arith)
  attempt_shipping-Attempted (l ∷ ls) (some d) = go (ship_segments hash_json c (l ∷ ls) d).1 refl
    where
      go :
          (r : Journal ℕ)
          → (ship_segments hash_json c (l ∷ ls) d).1 ≡ r
          → Attempted (l ∷ ls) (some d) (attempt_shipping hash_json c text (l ∷ ls) (some d))
      go (ok n) e =
          subst (Attempted (l ∷ ls) (some d)) (sym (attempted_as l ls d (ok n) e))
            (sent d _ n (λ i. ((ship_segments hash_json c (l ∷ ls) d).0, e i)))
      go (err x) e =
          subst (Attempted (l ∷ ls) (some d)) (sym (attempted_as l ls d (err x) e))
            (not_sent d _ x (λ i. ((ship_segments hash_json c (l ∷ ls) d).0, e i)))
