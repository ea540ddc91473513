-- ===== src/Server/Facts/Patched.antt =====
-- The bulk update of facts: its counters, and where it differs from the update of one.
use ragamuffin.Base.{
  ℕ, ◌+◌, ◌≤◌, ◌≡◌, ◌↔◌, refl, ap, Option, none, some, List, [], ◌∷◌, arith, length, Bool-cases,
  inl, inr, if◌then◌else◌, ltb, ◌==◌,
}
use ragamuffin.Text.{Text, codes, same_text}
use ragamuffin.Auth.{Claims}
use ragamuffin.Store.Payload.{Fields, double, lookup_field}
use ragamuffin.Store.Payload.Access.{set_fields}
use ragamuffin.Store.Payload.Access.Laws.{lookup_field-set_fields_other}
use ragamuffin.Server.{Settings, FactStore, answered, refuse, lacks_write}
use ragamuffin.Server.Facts.{unix_of}
use ragamuffin.Server.Facts.Stored.{reads}
use ragamuffin.Server.Facts.Update.{FactUpdate, put_payload, put_fields, apply_field_update}
use ragamuffin.Server.Facts.Patch.{
  BulkResult, BulkAnswer, build_patch_updates, patch_one, patch_all, tally, bulk_answer,
  handle_facts_patch,
}

-- The number of results that are failures.
abbrev pub failures : List BulkResult → ℕ
failures [] = 0
failures (r ∷ rs) = elim r.failure [ none ↦ failures rs | some e ↦ failures rs + 1 ]

abbrev pub result_keys : List BulkResult → List Text
result_keys [] = []
result_keys (r ∷ rs) = r.key ∷ result_keys rs

-- One result for every key, in their order, and two counters that add up.
abbrev pub IsTally {ℓ} : {S : Type ℓ} → List Text → S × (List BulkResult × (ℕ × ℕ)) → Type 0
IsTally keys (s, (results, (succeeded, failed))) =
    (result_keys results ≡ keys) × (failed ≡ failures results) × (succeeded + failed ≡ length keys)

IsTally-tally {ℓ} :
    {S : Type ℓ} (key : Text) (failure : Option Text) (keys : List Text)
    (q : S × (List BulkResult × (ℕ × ℕ)))
    → IsTally keys q
    → IsTally (key ∷ keys) (tally key failure q)
unfolding tally
IsTally-tally key none keys (s, (results, (succeeded, failed))) (a, b, c) =
    (ap (λ ks. key ∷ ks) a, b, omega arith)
IsTally-tally key (some e) keys (s, (results, (succeeded, failed))) (a, b, c) =
    (ap (λ ks. key ∷ ks) a, ap (λ n. n + 1) b, omega arith)

abbrev pub IsBulk : List Text → BulkAnswer → Type 0
IsBulk keys a =
    (result_keys a.results ≡ keys)
    × (a.total ≡ length keys)
    × (a.failed ≡ failures a.results)
    × (a.succeeded + a.failed ≡ a.total)
    × ((a.status ≡ 500) ↔ (a.failed ≡ a.total))

move : (keys : List Text) (a b : BulkAnswer) → a ≡ b → IsBulk keys a → IsBulk keys b
move keys a b e h = rw (← e) h

-- What a bulk update that is answered says.
abbrev pub IsPatched : Option (List Text × FactUpdate) → BulkAnswer → Type 0
IsPatched body a =
    (keys : List Text) × (req : FactUpdate) × (body ≡ some (keys, req))
    × IsBulk keys a
    × (1 ≤ length keys)
    × (length keys ≤ 1000)

module _ {S : Type 0} (cfg : Settings) (store : FactStore S) where
  IsTally-patch_all :
      (keys : List Text) (s : S) (now : ℕ) (req : FactUpdate)
      → IsTally keys (patch_all cfg store s now req keys)
  unfolding patch_all
  IsTally-patch_all [] s now req = (refl, refl, refl)
  IsTally-patch_all (key ∷ keys) s now req =
      let (t, failure) = patch_one cfg store s now req key in
      IsTally-tally key failure keys (patch_all cfg store t now req keys)
        (IsTally-patch_all keys t now req)

  IsBulk-bulk_answer :
      (keys : List Text) (q : S × (List BulkResult × (ℕ × ℕ))) (a : BulkAnswer)
      → IsTally keys q
      → (bulk_answer cfg store keys q).reply ≡ answered a
      → IsBulk keys a
  unfolding bulk_answer
  IsBulk-bulk_answer keys (s, (results, (succeeded, failed))) a (k, f, c) h =
      let whole : BulkAnswer = record {
        status = if failed == length keys then 500 else 200;
        results = results;
        total = length keys;
        succeeded = succeeded;
        failed = failed;
      } in
      move keys whole a (ground (arith, h))
        (k, refl, f, c, ((λ e. ground (arith, e)), (λ e. ground (arith, e))))

  -- A bulk update that is answered has one result for every key, in the order of the keys, at most a
  -- thousand and at least one; the counters are the numbers of the results, and add up to the number
  -- of the keys; and the status is 500 exactly when no key succeeded.
  pub bulk-handle_facts_patch :
      (s : S) (now : ℕ) (claims : Option Claims) (body : Option (List Text × FactUpdate))
      (a : BulkAnswer)
      → (handle_facts_patch cfg store s now claims body).reply ≡ answered a
      → IsPatched body a
  unfolding handle_facts_patch refuse
  bulk-handle_facts_patch s now claims none a h =
      absurd (ground (arith, h, Bool-cases (lacks_write claims)))
  bulk-handle_facts_patch s now claims (some ([], req)) a h =
      absurd (ground (arith, h, Bool-cases (lacks_write claims)))
  bulk-handle_facts_patch s now claims (some (key ∷ keys, req)) a h =
      elim (Bool-cases (lacks_write claims)) [
        | inl e ↦ absurd (ground (arith, h, e))
        | inr e ↦ elim (Bool-cases (ltb 1000 (length (key ∷ keys)))) [
          | inl f ↦ absurd (ground (arith, h, e, f))
          | inr f ↦ (
            key ∷ keys,
            req,
            refl,
            IsBulk-bulk_answer (key ∷ keys) (patch_all cfg store s now req (key ∷ keys)) a
                (IsTally-patch_all (key ∷ keys) s now req) (ground (arith, h, e, f)),
            omega arith,
            ground (arith, f),
          )
        ]
      ]

-- Of a new start of a fact's validity, the bulk update leaves the number that the time filters read
-- as it was, and the update of one fact sets it to the unix time of the text.
pub stale-build_patch_updates :
    (cfg : Settings) (now : ℕ) (req : FactUpdate) (p : Fields) (from : Text)
    → req.valid_from ≡ some from
    → (lookup_field (set_fields (build_patch_updates cfg now req) p) (codes "valid_from_unix")
        ≡ lookup_field p (codes "valid_from_unix"))
      × (lookup_field (put_payload cfg now req p) (codes "valid_from_unix")
          ≡ some (double (unix_of cfg from)))
unfolding build_patch_updates put_payload put_fields apply_field_update same_text lookup_field
stale-build_patch_updates cfg now req p from h = (
  lookup_field-set_fields_other (build_patch_updates cfg now req) p (codes "valid_from_unix")
      (simp (reads)),
  simp (reads, h),
)
