-- ===== src/Auth/Context/Signed.antt =====
-- agent-context.js: what a signed context proves.
use dp_beget_bridge.Base.{
  ltb, Bool-cases, Option-cases, ok, ℕ, ◌+◌, ◌-◌, ◌/◌, ◌≤◌, ◌<◌, String, ◌≡◌, refl, sym, ap, subst,
  inl, inr, true, false, ◌&&◌, ◌||◌, some, List, [], ◌∷◌, arith, ◌==◌, eq_iff, eq_refl,
}
use dp_beget_bridge.Auth.Context.{
  Payload, Signing, secret_ok, payload_ok, Authorization, method_text, new_payload,
  create_agent_context, value_length, Claims, claims_of, out_of_time, check_payload, verify_parts,
  verify_agent_context,
}

created_facts :
    (g : Signing) (secret : String) (a : Authorization) (method path : String) (now ttl : ℕ)
    (jti : String) (value : List String)
    → create_agent_context g secret a method path now ttl jti ≡ ok value
    → (secret_ok secret ≡ true)
      × (ttl ≤ 30000)
      × (payload_ok (new_payload g a method path now ttl jti) ≡ true)
      × (g.encode (new_payload g a method path now ttl jti)
            ∷ g.mac secret (g.encode (new_payload g a method path now ttl jti))
            ∷ []
          ≡ value)
unfolding create_agent_context
created_facts g secret a method path now ttl jti value e = elim (Bool-cases (secret_ok secret)) [
  | inr weak ↦ let bad = rw weak at e in cc
  | inl strong ↦ elim (Bool-cases (ltb ttl 1 || ltb 30000 ttl)) [
    | inl long ↦ let bad = rw (strong, long) at e in cc
    | inr fits ↦ elim (Bool-cases (payload_ok (new_payload g a method path now ttl jti))) [
      | inr wrong ↦ let bad = rw (strong, fits, wrong) at e in cc
      | inl valid ↦ let made = rw (strong, fits, valid) at e in (strong, ground arith, valid, cc)
    ]
  ]
]

in_time :
    (g : Signing) (a : Authorization) (method path : String) (now ttl later skew : ℕ) (jti : String)
    → ttl ≤ 30000
    → now ≤ later
    → later < now + ttl
    → out_of_time (new_payload g a method path now ttl jti) later skew ≡ false
unfolding out_of_time new_payload
in_time g a method path now ttl later skew jti short after before = ground arith

-- A context that was created is accepted for the same secret, method and path from its creation until
-- its lifetime has passed, with the claims of the authorization, if it is not too long and decoding
-- undoes the encoding of its payload.
pub verify-create :
    (g : Signing) (secret : String) (a : Authorization) (method path : String)
    (now ttl later skew : ℕ) (jti : String) (value : List String)
    → g.decode (g.encode (new_payload g a method path now ttl jti))
      ≡ some (new_payload g a method path now ttl jti)
    → create_agent_context g secret a method path now ttl jti ≡ ok value
    → value_length value ≤ 4096
    → now ≤ later
    → later < now + ttl
    → verify_agent_context g secret value method path later skew
      ≡ ok (claims_of (new_payload g a method path now ttl jti))
unfolding verify_agent_context verify_parts check_payload
verify-create g secret a method path now ttl later skew jti value decodes created short after
      before =
    let x = new_payload g a method path now ttl jti in
    let (strong, fits, valid, made) =
      created_facts g secret a method path now ttl jti value created in
    let room : ltb 4096 (value_length value) ≡ false = ground arith in
    rw (strong, room)
      (subst (λ v. verify_parts g secret v method path later skew ≡ ok (claims_of x)) made
        (rw
          (
            eq_refl (g.mac secret (g.encode x)),
            decodes,
            valid,
            in_time g a method path now ttl later skew jti fits after before,
          )
          (unfold new_payload in rw (eq_refl (method_text g method), eq_refl path) refl)))

-- What an accepted value says.
abbrev Accepted : Signing → String → List String → String → String → ℕ → Claims → Type 0
Accepted g secret value method path now claims =
    (encoded : String) × (x : Payload) × (value ≡ encoded ∷ g.mac secret encoded ∷ [])
    × (g.decode encoded ≡ some x)
    × (claims ≡ claims_of x)
    × (x.mth ≡ method_text g method)
    × (x.pth ≡ path)
    × (now / 1000 < x.exp)
    × (x.exp - x.iat ≤ 35)

checked_payload :
    (g : Signing) (x : Payload) (method path : String) (now skew : ℕ) (claims : Claims)
    → check_payload g (some x) method path now skew ≡ ok claims
    → (claims ≡ claims_of x)
      × (x.mth ≡ method_text g method)
      × (x.pth ≡ path)
      × (now / 1000 < x.exp)
      × (x.exp - x.iat ≤ 35)
unfolding check_payload out_of_time
checked_payload g x method path now skew claims e = elim (Bool-cases (payload_ok x)) [
  | inr wrong ↦ let bad = rw wrong at e in cc
  | inl valid ↦ elim (Bool-cases (out_of_time x now skew)) [
    | inl late ↦ let bad = rw (valid, late) at e in cc
    | inr timely ↦ elim (Bool-cases (x.mth == method_text g method && x.pth == path)) [
      | inr other ↦ let bad = rw (valid, timely, other) at e in cc
      | inl same ↦
          let out = rw (valid, timely, same) at e in
          (
            cc,
            (eq_iff x.mth (method_text g method)).0 (ground arith),
            (eq_iff x.pth path).0 (ground arith),
            ground arith,
            ground arith,
          )
    ]
  ]
]

signed_parts :
    (g : Signing) (secret : String) (value : List String) (method path : String) (now skew : ℕ)
    (claims : Claims)
    → verify_parts g secret value method path now skew ≡ ok claims
    → Accepted g secret value method path now claims
unfolding verify_parts check_payload
signed_parts g secret (encoded ∷ given ∷ []) method path now skew claims e =
    elim (Bool-cases (g.mac secret encoded == given)) [
      | inr forged ↦ let bad = rw forged at e in cc
      | inl signed ↦
          let checked = rw signed at e in
          elim (Option-cases (g.decode encoded)) [
            | inl none_read ↦ let bad = rw none_read at checked in cc
            | inr (x, read) ↦
                let (a, b, c, d, f) =
                  checked_payload g x method path now skew claims (rw read at checked) in
                (
                  encoded,
                  x,
                  ap (λ s. encoded ∷ s ∷ []) (sym ((eq_iff (g.mac secret encoded) given).0 signed)),
                  read,
                  a,
                  b,
                  c,
                  d,
                  f,
                )
          ]
    ]
signed_parts g secret [] method path now skew claims e = cc
signed_parts g secret (_ ∷ []) method path now skew claims e = cc
signed_parts g secret (_ ∷ _ ∷ _ ∷ _) method path now skew claims e = cc

-- A value that is accepted is two parts, of which the second is the signature of the first, and the
-- first decodes to a payload with the claims, for this method and path, that has not expired and does
-- not live longer than 35 seconds.
pub verify_sound :
    (g : Signing) (secret : String) (value : List String) (method path : String) (now skew : ℕ)
    (claims : Claims)
    → verify_agent_context g secret value method path now skew ≡ ok claims
    → (encoded : String) × (x : Payload) × (value ≡ encoded ∷ g.mac secret encoded ∷ [])
      × (g.decode encoded ≡ some x)
      × (claims ≡ claims_of x)
      × (x.mth ≡ method_text g method)
      × (x.pth ≡ path)
      × (now / 1000 < x.exp)
      × (x.exp - x.iat ≤ 35)
unfolding verify_agent_context
verify_sound g secret value method path now skew claims e = elim (Bool-cases (secret_ok secret)) [
  | inr weak ↦ let bad = rw weak at e in cc
  | inl strong ↦ elim (Bool-cases (ltb 4096 (value_length value))) [
    | inl long ↦ let bad = rw (strong, long) at e in cc
    | inr short ↦ signed_parts g secret value method path now skew claims (rw (strong, short) at e)
  ]
]
