-- ===== src/Api/Uncertain/Others.antt =====
-- main.py: what `resolve_and_forward_uncertain` forwards of a webhook with several uncertain keys.
use healpipe.Prelude.{
  String, Bool, true, false, List, [], ◌∷◌, ◌++◌, ◌==◌, string_eq, contains, ◌≡◌, ◌≢◌, refl, sym,
  subst, ap, ◌∙◌, inl, inr, arith, Bool-cases, eq_iff, ==_refl,
}
use healpipe.Prelude.Table.{select}
use healpipe.Prelude.Dict.{Dict, IsDict, get, remove, keys, has_key, get-put}
use healpipe.Database.Schema.{DeliveryJob}
use healpipe.Database.Schema.Json.{Value, Payload}
use healpipe.Matching.Keys.{default_match_threshold, key_confidence}
use healpipe.Matching.Persisted.{move}
use healpipe.Python.{score_ltb}
use healpipe.Services.SchemaResolution.{Claude}
use healpipe.Api.State.{Api, Setting}
use healpipe.Api.Receive.{uncertain_keys}
use healpipe.Api.Uncertain.{Print, Parked, resolve_and_forward_uncertain}
use healpipe.Api.Uncertain.FailClosed.{forwarded_on_decision}

get-remove_other :
    {V : Type 0} (k j : String) (d : Dict V) → (j == k) ≡ false → get j (remove k d) ≡ get j d
unfolding get remove
get-remove_other k j [] h = refl
get-remove_other k j ((i, w) ∷ d) h =
    ground (arith, eq_iff k i, eq_iff j i, eq_iff j k, get-remove_other k j d)

get-move_other :
    (k target j : String) (value : Value) (d : Payload)
    → (j == k) ≡ false
    → (j == target) ≡ false
    → get j (move k target value d) ≡ get j d
get-move_other k target j value d h t =
    rw (get-put target j value (remove k d)) (rw t (get-remove_other k j d h))

select-head :
    (p : String → Bool) (d : Payload) (x : String) (more : List String)
    → select p (keys d) ≡ x ∷ more
    → (p x ≡ true) × (has_key x d ≡ true)
unfolding select
select-head p [] x more h = cc h
select-head p ((k, v) ∷ d) x more h = elim (Bool-cases (p k)) [
  | inl e ↦
      let same : k ≡ x = ground arith in
      (subst (λ j. p j ≡ true) same e, rw (sym same) (rw (==_refl k) refl))
  | inr e ↦ let rest = select-head p d x more (ground arith) in (rest.0, ground arith)
]

-- The second of the selected keys is one of the dict, and differs from the first.
select-pair :
    (p : String → Bool) (d : Payload) (first second : String) (more : List String)
    → IsDict d
    → select p (keys d) ≡ first ∷ second ∷ more
    → (p second ≡ true) × ((second == first) ≡ false) × (has_key second d ≡ true)
unfolding select
select-pair p [] first second more w h = cc h
select-pair p ((k, v) ∷ d) first second more w h = elim (Bool-cases (p k)) [
  | inl e ↦
      let same : k ≡ first = ground arith in
      let rest = select-head p d second more (ground arith) in
      let apart : (second == first) ≡ false = elim (Bool-cases (second == first)) [
        | inr f ↦ f
        | inl f ↦
            let equal : second ≡ k = (string_eq.same_iff second first).0 f ∙ sym same in
            let twice : has_key k d ≡ true = subst (λ j. has_key j d ≡ true) equal rest.1 in
            cc (sym w.0 ∙ twice)
      ] in
      (rest.0, apart, ground arith)
  | inr e ↦
      let rest = select-pair p d first second more w.1 (ground arith) in
      (rest.0, rest.1, ground arith)
]

has_key_apart :
    (j k : String) (d : Payload) → has_key j d ≡ true → has_key k d ≡ false → (j == k) ≡ false
has_key_apart j k d h f = elim (Bool-cases (j == k)) [
  | inr e ↦ e
  | inl e ↦
      let equal : j ≡ k = (string_eq.same_iff j k).0 e in
      cc (sym f ∙ subst (λ i. has_key i d ≡ true) equal h)
]

-- Where the task of a parked webhook with more than one uncertain key stores any job, the body of
-- this job still has the second of these keys, with its value: a key that is not expected and whose
-- confidence is below the threshold, on which no decision was made.
pub other_uncertain_forwarded :
    (s : Setting) (print : Print) (claude : Claude) (p : Parked) (expected : List String)
    (second : String) (more : List String) (api : Api)
    → IsDict p.healed_payload
    → uncertain_keys s expected p.healed_payload ≡ p.uncertain_key ∷ second ∷ more
    → let after = resolve_and_forward_uncertain s print claude p api in
      (after.db.delivery_jobs ≢ api.db.delivery_jobs)
      → (job : DeliveryJob) × (after.db.delivery_jobs ≡ api.db.delivery_jobs ++ job ∷ [])
        × (get second job.body ≡ get second p.healed_payload)
        × (has_key second p.healed_payload ≡ true)
        × (contains second expected ≡ false)
        × (score_ltb (key_confidence s.text second expected) default_match_threshold ≡ true)
unfolding uncertain_keys
other_uncertain_forwarded s print claude p expected second more api w h changed =
    let (doubted, apart, there) = select-pair _ p.healed_payload p.uncertain_key second more w h in
    elim (forwarded_on_decision s print claude p api) [
      | inl held ↦ absurd (changed held.0)
      | inr (r, read, valid, forwards) ↦
          let body = ap (get second) forwards.11 in
          (
            forwards.2,
            forwards.9,
            body
                ∙ get-move_other p.uncertain_key r.mapped_key second forwards.1 p.healed_payload
                    apart (has_key_apart second r.mapped_key p.healed_payload there forwards.7),
            there,
            ground arith,
            ground arith,
          )
    ]
