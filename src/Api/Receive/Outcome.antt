-- ===== src/Api/Receive/Outcome.antt =====
-- main.py: what `receive_webhook` does with every webhook, refused, withheld or accepted.
use healpipe.Prelude.{
  String, true, false, none, some, ◌∷◌, ◌≡◌, refl, sym, subst, ◌∙◌, ◌∙◌, ◌⊎◌, inl, inr, arith,
  Bool-cases, Option-cases, List-cases,
}
use healpipe.Database.Schema.{Uuid, DataBridge}
use healpipe.Database.State.{Db, Result, Error, ok, err, http_exception, Result-cases}
use healpipe.Database.Bridges.{get_active_data_bridge}
use healpipe.Intake.Security.{verify_webhook_signature}
use healpipe.Api.State.{Api, Request, Setting}
use healpipe.Api.Access.{present}
use healpipe.Api.Receive.{
  missing_required, uncertain_keys, reject, park, accept, way_out, is_signed, has_key_if_required,
  heal, receive_webhook,
}
use healpipe.Api.Webhook.{WebhookReceiveRequest, Receipt, Healed}
use healpipe.Api.Receive.Accepted.{
  IsTrusted, no_gap-IsTrusted, IsTrusted-no_gap, Accepts, accept-Accepts, Withholds,
  reject-Withholds, park-Withholds,
}

-- What an IsTrusted payload, or another, comes to.
abbrev pub Handles : Setting → Healed → Api → Result Receipt × Api → Type 0
Handles s h api out =
    (IsTrusted s h × Accepts s h api out) ⊎ ((¬ IsTrusted s h) × Withholds s h api out)

way_out-Handles :
    (s : Setting) (h : Healed) (api : Api)
    → api.db.configured ≡ true
    → Handles s h api (way_out s h api)
way_out-Handles s h api c = elim (List-cases (missing_required h.healed)) [
  | inr (field, fields, e) ↦ inr (
    (λ t. ground (arith, e, (IsTrusted-no_gap s h t).0)),
    let q : way_out s h api ≡ reject s h (field ∷ fields) api = rw (way_out, e) refl in
        subst (Withholds s h api) (sym q) (reject-Withholds s h (field ∷ fields) api c),
  )
  | inl e ↦ elim (List-cases (uncertain_keys s h.expected h.healed)) [
    | inr (key, more, f) ↦ inr (
      (λ t. ground (arith, f, (IsTrusted-no_gap s h t).1)),
      let q : way_out s h api ≡ park s h key more api = rw (way_out, e) (rw f refl) in
          subst (Withholds s h api) (sym q) (park-Withholds s h key more api c),
    )
    | inl f ↦
        let q : way_out s h api ≡ accept s h api = rw (way_out, e) (rw f refl) in
        inl (no_gap-IsTrusted s h e f, subst (Accepts s h api) (sym q) (accept-Accepts s h api c))
  ]
]

-- The webhook bears a signature of its body under the bridge's secret, and a key where one is
-- required.
abbrev pub IsAdmitted : Setting → Request → WebhookReceiveRequest → DataBridge → Type 0
IsAdmitted s request r b =
    (signature : String) × (present request.webhook_signature ≡ some signature)
    × (verify_webhook_signature s.text s.hmac request.body signature b.signature_secret ≡ ok true)
    × ((s.require_idempotency_key ≡ false)
        ⊎ ((key : String) × (present r.idempotency_key ≡ some key)))

IsAdmitted-ok :
    (s : Setting) (request : Request) (r : WebhookReceiveRequest) (b : DataBridge)
    → IsAdmitted s request r b
    → (is_signed s request b ≡ ok tt) × (has_key_if_required s r ≡ ok tt)
IsAdmitted-ok s request r b (signature, e, f, inl k) = (rw (is_signed, e) (rw f refl), ground arith)
IsAdmitted-ok s request r b (signature, e, f, inr (key, k)) =
    (rw (is_signed, e) (rw f refl), ground arith)

key_given :
    (s : Setting) (r : WebhookReceiveRequest)
    → has_key_if_required s r ≡ ok tt
    → (s.require_idempotency_key ≡ false)
      ⊎ ((key : String) × (present r.idempotency_key ≡ some key))
key_given s r k = elim (Bool-cases s.require_idempotency_key) [
  | inr f ↦ inl f
  | inl f ↦ elim (Option-cases (present r.idempotency_key)) [
    | inl g ↦ absurd (ground arith)
    | inr (key, g) ↦ inr (key, g)
  ]
]

ok-IsAdmitted :
    (s : Setting) (request : Request) (r : WebhookReceiveRequest) (b : DataBridge)
    → is_signed s request b ≡ ok tt
    → has_key_if_required s r ≡ ok tt
    → IsAdmitted s request r b
ok-IsAdmitted s request r b h k = elim (Option-cases (present request.webhook_signature)) [
  | inl e ↦ absurd (ground arith)
  | inr (signature, e) ↦
      elim (Result-cases
        (verify_webhook_signature s.text s.hmac request.body signature b.signature_secret)) [
          | inr (fault, f) ↦ absurd (ground arith)
          | inl (false, f) ↦ absurd (ground arith)
          | inl (true, f) ↦ (signature, e, f, key_given s r k)
        ]
]

active_configured :
    (i : Uuid) (b : DataBridge) (db : Db)
    → get_active_data_bridge i none db ≡ some b
    → db.configured ≡ true
unfolding get_active_data_bridge
active_configured i b db h = ground arith

-- A bridge of this id is active, and the webhook is admitted to it.
abbrev pub Reaches : Setting → Request → WebhookReceiveRequest → Uuid → Api → DataBridge → Type 0
Reaches s request r i api b =
    (get_active_data_bridge i none api.db ≡ some b) × IsAdmitted s request r b

module _ (s : Setting) (request : Request) (r : WebhookReceiveRequest) (i : Uuid) (api : Api) where
  Reaches-Handles :
      (b : DataBridge)
      → Reaches s request r i api b
      → Handles s (heal s request r b api.db) api (receive_webhook s request r i api)
  unfolding receive_webhook
  Reaches-Handles b (found, admitted) =
      let checks = IsAdmitted-ok s request r b admitted in
      let q : receive_webhook s request r i api ≡ way_out s (heal s request r b api.db) api =
        rw (receive_webhook, found) (rw checks.0 (rw checks.1 refl)) in
      subst (Handles s (heal s request r b api.db) api) (sym q)
        (way_out-Handles s (heal s request r b api.db) api (active_configured i b api.db found))

  -- A webhook is refused exactly where no active bridge has its id, its signature is missing or
  -- not that of its body under the bridge's secret, or a required key is missing; and then nothing
  -- of the state changes. Every other webhook is stored with what became of it; and it becomes a
  -- job for the bridge's target, with the healed payload and in the queue, exactly where this
  -- payload has both required fields and each of its keys is an expected one or resembles one at
  -- least to the threshold.
  pub receive_webhook_outcome :
      ((b : DataBridge) × Reaches s request r i api b
        × Handles s (heal s request r b api.db) api (receive_webhook s request r i api))
      ⊎ ((e : Error) × (receive_webhook s request r i api ≡ (err e, api))
          × ((b : DataBridge) → ¬ Reaches s request r i api b))
  unfolding receive_webhook
  receive_webhook_outcome = elim (Option-cases (get_active_data_bridge i none api.db)) [
    | inl e ↦ inr (
      http_exception 404 "Active data bridge was not found",
      rw (receive_webhook, e) refl,
      λ b reached. cc (sym e ∙ reached.0),
    )
    | inr (b, e) ↦ elim (Result-cases (is_signed s request b)) [
      | inr (fault, f) ↦ inr (
        fault,
        rw (receive_webhook, e) (rw f refl),
        λ c reached.
            let same : b ≡ c = cc (sym e ∙ reached.0) in
            let signed : is_signed s request b ≡ ok tt =
              subst (λ d. is_signed s request d ≡ ok tt) (sym same)
                (IsAdmitted-ok s request r c reached.1).0 in
            cc (sym f ∙ signed),
      )
      | inl (tt, f) ↦ elim (Result-cases (has_key_if_required s r)) [
        | inr (fault, g) ↦ inr (
          fault,
          rw (receive_webhook, e) (rw f (rw g refl)),
          λ c reached. cc (g, (IsAdmitted-ok s request r c reached.1).1),
        )
        | inl (tt, g) ↦
            let reached : Reaches s request r i api b = (e, ok-IsAdmitted s request r b f g) in
            inl (b, reached, Reaches-Handles b reached)
      ]
    ]
  ]
