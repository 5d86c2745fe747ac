-- ===== src/Cose/Validation/Accepted.antt =====
-- internal/coseutil/cose.go: what is known of a transaction that validation accepts.
use custom_consensus.Base.{
  ◌≡◌, ◌∙◌, refl, sym, ap, subst, Bool, true, false, not, Option, none, some, length, Bytes, Text,
  is_empty, hex_encode, Map, arith, ◌==◌, if◌then◌else◌,
}
use custom_consensus.Base.Int.{ℤ, pos, negsuc, eqb_ℤ, eqb_ℤ_iff, ltb_ℤ, ◌<ℤ◌}
use custom_consensus.Cose.{Tx}
use custom_consensus.Cose.Values.{Value, Fields, field, number_of, map_of, bytes_of}
use custom_consensus.Cose.Validation.{
  CoseOutside, CoseError, not_bstr, protected_map, wrong_alg, sig_struct, unknown_kid,
  signature_mismatch, payload_decode, Outcome, panicked, refused, accepted, ◌>>=◌, expect, ensure,
  registry_get, kid_of, device_of, fee_valid, read_payload, parts_of, protected_of,
  triad_from_array, check_signature, finish, validate_cose_tx, extract_kid,
}

-- What a step was that led to an accepted result.
bind-accepted {ℓ κ} :
    {A : Type ℓ} {B : Type κ} (x : Outcome A) (f : A → Outcome B) (b : B)
    → (x >>= f) ≡ accepted b
    → (a : A) × (x ≡ accepted a) × (f a ≡ accepted b)
bind-accepted panicked f b h = absurd (ground arith)
bind-accepted (refused e) f b h = absurd (ground arith)
bind-accepted (accepted a) f b h = (a, refl, h)

value_or {ℓ} : {A : Type ℓ} → A → Outcome A → A
value_or d (accepted a) = a
value_or d _ = d

accepted_inj {ℓ} : {A : Type ℓ} (a b : A) → accepted a ≡ accepted b → a ≡ b
unfolding value_or
accepted_inj a b h = ap (value_or a) h

expect-bind {ℓ κ} :
    {A : Type ℓ} {B : Type κ} (e : CoseError) (v : Option A) (f : A → Outcome B) (b : B)
    → (expect e v >>= f) ≡ accepted b
    → (a : A) × (v ≡ some a) × (f a ≡ accepted b)
unfolding expect
expect-bind e none f b h = absurd (ground arith)
expect-bind e (some a) f b h = (a, refl, h)

ensure-bind {κ} :
    {B : Type κ} (e : CoseError) (ok : Bool) (f : Unit {0} → Outcome B) (b : B)
    → (ensure e ok >>= f) ≡ accepted b
    → (ok ≡ true) × (f tt ≡ accepted b)
unfolding ensure
ensure-bind e true f b h = (refl, h)
ensure-bind e false f b h = absurd (ground arith)

false_of_not : {b : Bool} → not b ≡ true → b ≡ false
false_of_not h = ground arith

positive : (n : ℤ) → ltb_ℤ (pos 0) n ≡ true → pos 0 <ℤ n
positive n h = ground arith

guard-bind {ℓ κ} :
    {A : Type ℓ} {B : Type κ} (ok : Bool) (x : Outcome A) (f : A → Outcome B) (b : B)
    → ((if ok then x else panicked) >>= f) ≡ accepted b
    → (ok ≡ true) × ((x >>= f) ≡ accepted b)
guard-bind true x f b h = (refl, h)
guard-bind false x f b h = absurd (ground arith)

-- A signature that verifies under the registered key of a key id.
pub record Signed (o : CoseOutside) (keys : Map Bytes) (prot payload sig kid : Bytes) : Type 0 where
  pub header : Fields
  pub decoded : o.decode_map prot ≡ some header
  pub alg : number_of (field (pos 1) header) ≡ negsuc 7
  pub named : kid_of header ≡ accepted kid
  pub to_sign : Bytes
  pub encoded : o.sig_structure prot payload ≡ some to_sign
  pub key : Bytes
  pub known : registry_get keys kid ≡ some key
  pub key_length : length key ≡ 32
  pub verifies : o.ed25519_verify key to_sign sig ≡ true

module _ (o : CoseOutside) (keys : Map Bytes) where
  -- The verification under a key.
  verified :
      (key to_sign sig kid kid' : Bytes)
      → ((if length key == 32
            then ensure signature_mismatch (o.ed25519_verify key to_sign sig)
            else panicked)
          >>= (λ signed. accepted kid'))
        ≡ accepted kid
      → (length key ≡ 32) × (o.ed25519_verify key to_sign sig ≡ true) × (kid' ≡ kid)
  verified key to_sign sig kid kid' h =
      let check = ensure signature_mismatch (o.ed25519_verify key to_sign sig) in
      let (long, h') = guard-bind (length key == 32) check (λ signed. accepted kid') kid h in
      let (v, e) =
        ensure-bind signature_mismatch (o.ed25519_verify key to_sign sig) (λ signed. accepted kid')
          kid h' in
      (ground arith, v, accepted_inj kid' kid e)

  check_signature-Signed :
      (prot payload sig kid : Bytes)
      → check_signature o keys (prot, payload, sig) ≡ accepted kid
      → Signed o keys prot payload sig kid
  unfolding check_signature
  check_signature-Signed prot payload sig kid h =
      let (ph, e1, h1) = expect-bind protected_map (o.decode_map prot) _ kid h in
      let (alg, h2) =
        ensure-bind wrong_alg (eqb_ℤ (number_of (field (pos 1) ph)) (negsuc 7)) _ kid h1 in
      let (kid', e3, h3) = bind-accepted (kid_of ph) _ kid h2 in
      let (to_sign, e4, h4) = expect-bind sig_struct (o.sig_structure prot payload) _ kid h3 in
      let (key, e5, h5) = expect-bind unknown_kid (registry_get keys kid') _ kid h4 in
      let (long, v, same) = verified key to_sign sig kid kid' h5 in
      record {
        header = ph;
        decoded = e1;
        alg = (eqb_ℤ_iff _ _).0 alg;
        named = e3 ∙ ap accepted same;
        to_sign = to_sign;
        encoded = e4;
        key = key;
        known = sym (ap (registry_get keys) same) ∙ e5;
        key_length = long;
        verifies = v;
      }

-- A payload with a device, a positive sequence number and a fee.
pub record Payload (pl : Fields) (dev_id : Text) (seq : ℤ) : Type 0 where
  pub device : Fields
  pub device_map : map_of (field (pos 3) pl) ≡ some device
  pub dev_id_of : dev_id ≡ device_of device
  pub named : is_empty dev_id ≡ false
  pub seq_of : seq ≡ number_of (field (pos 4) pl)
  pub seq_pos : pos 0 <ℤ seq
  pub fee : Fields
  pub fee_map : map_of (field (pos 6) pl) ≡ some fee
  pub paid : fee_valid fee ≡ true

read_payload-Payload :
    (pl : Fields) (read : Text × ℤ) → read_payload pl ≡ accepted read → Payload pl read.0 read.1
unfolding read_payload
read_payload-Payload pl read h =
    let (version, h0) = ensure-bind _ _ _ read h in
    let (network, e1, h1) = expect-bind _ _ _ read h0 in
    let (tx_type, e2, h2) = expect-bind _ _ _ read h1 in
    let (dev, e3, h3) = expect-bind _ _ _ read h2 in
    let (later, h4) = ensure-bind _ _ _ read h3 in
    let (fee, e6, h6) = expect-bind _ _ _ read h4 in
    let (paid, h7) = ensure-bind _ _ _ read h6 in
    let (content, e8, h8) = expect-bind _ _ _ read h7 in
    let (named, h9) = ensure-bind _ _ _ read h8 in
    let same : (device_of dev, number_of (field (pos 4) pl)) ≡ read = accepted_inj _ _ h9 in
    let e : device_of dev ≡ read.0 = ap (λ r. r.0) same in
    let n : number_of (field (pos 4) pl) ≡ read.1 = ap (λ r. r.1) same in
    record {
      device = dev;
      device_map = e3;
      dev_id_of = sym e;
      named = ap is_empty (sym e) ∙ false_of_not named;
      seq_of = sym n;
      seq_pos = subst (λ x. pos 0 <ℤ x) n (positive _ later);
      fee = fee;
      fee_map = e6;
      paid = paid;
    }

module _ (o : CoseOutside) (keys : Map Bytes) where
  -- What validation finds in a message that it accepts.
  pub record Valid (b : Bytes) (tx : Tx) : Type 0 where
    pub prot : Bytes
    pub payload : Bytes
    pub sig : Bytes
    pub signature : Signed o keys prot payload sig tx.kid
    pub fields : Fields
    pub decoded : o.decode_map payload ≡ some fields
    pub read : Payload fields tx.dev_id tx.seq
    pub id : tx.tx_id ≡ hex_encode (o.sha256 payload)
    pub extracted : extract_kid o b ≡ accepted tx.kid

  extract_kid-Signed :
      (b : Bytes) (parts : Value × Value × Value × Value) (prot payload sig kid : Bytes)
      → parts_of o b ≡ accepted parts
      → protected_of o parts.0 ≡ some prot
      → Signed o keys prot payload sig kid
      → extract_kid o b ≡ accepted kid
  unfolding extract_kid expect
  extract_kid-Signed b parts prot payload sig kid e f v =
      rw (e, f, v.decoded, extract_kid, expect) v.named

  triad-protected :
      (parts : Value × Value × Value × Value) (triad : Bytes × Bytes × Bytes)
      → triad_from_array o parts ≡ accepted triad
      → protected_of o parts.0 ≡ some triad.0
  unfolding triad_from_array
  triad-protected (h, u, p, s) triad e =
      let (prot, e0, h0) = expect-bind not_bstr (protected_of o h) _ triad e in
      let (payload, e1, h1) = expect-bind not_bstr (bytes_of p) _ triad h0 in
      let (sig, e2, h2) = expect-bind not_bstr (bytes_of s) _ triad h1 in
      e0 ∙ ap some (ap (λ t. t.0) (accepted_inj (prot, payload, sig) triad h2))

  finished :
      (b : Bytes) (parts : Value × Value × Value × Value) (triad : Bytes × Bytes × Bytes)
      (kid : Bytes) (pl : Fields) (read : Text × ℤ)
      → parts_of o b ≡ accepted parts
      → triad_from_array o parts ≡ accepted triad
      → check_signature o keys triad ≡ accepted kid
      → o.decode_map triad.1 ≡ some pl
      → read_payload pl ≡ accepted read
      → Valid b (finish o triad.1 kid read)
  unfolding finish
  finished b parts (prot, payload, sig) kid pl read e t k d r =
      let signed = check_signature-Signed o keys prot payload sig kid k in
      record {
        prot = prot;
        payload = payload;
        sig = sig;
        signature = signed;
        fields = pl;
        decoded = d;
        read = read_payload-Payload pl read r;
        id = refl;
        extracted =
            extract_kid-Signed b parts prot payload sig kid e
              (triad-protected parts (prot, payload, sig) t) signed;
      }

  -- A transaction that ValidateCOSETx accepts is signed: its protected header names EdDSA and a key id
  -- under which a key of 32 bytes is registered, and Ed25519 verifies the signature of the header and the
  -- payload under this key. Its id is the hash of the payload, which names a device, has a positive
  -- sequence number, returned with it, and a fee of at least one uCR. ExtractKid finds the same key id.
  pub validate_cose_tx-Valid :
      (b : Bytes) (tx : Tx) → validate_cose_tx o keys b ≡ accepted tx → Valid b tx
  unfolding validate_cose_tx
  validate_cose_tx-Valid b tx valid =
      let (parts, e, h1) = bind-accepted (parts_of o b) _ tx valid in
      let (triad, t, h2) = bind-accepted (triad_from_array o parts) _ tx h1 in
      let (kid, k, h3) = bind-accepted (check_signature o keys triad) _ tx h2 in
      let (pl, d, h4) = expect-bind payload_decode (o.decode_map triad.1) _ tx h3 in
      let (read, r, h5) = bind-accepted (read_payload pl) _ tx h4 in
      subst (Valid b) (accepted_inj (finish o triad.1 kid read) tx h5)
        (finished b parts triad kid pl read e t k d r)
