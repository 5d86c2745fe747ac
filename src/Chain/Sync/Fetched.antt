-- ===== src/Chain/Sync/Fetched.antt =====
-- internal/blockchain/block.go: what a fetched key or block leads to.
use custom_consensus.Base.{
  All, ◌++◌, ℕ, suc, ◌<◌, ◌≡◌, ◌∙◌, refl, sym, ◌⊎◌, inl, inr, true, false, Option, none, some, List,
  [], ◌∷◌, length, Bytes, Text, hex_encode, hex_decode, Map, get-put_self, ◌==◌, arith,
  Option-cases, Bool-cases,
}
use custom_consensus.Base.Int.{pos, negsuc, eqb_ℤ}
use custom_consensus.Cose.Values.{Value, Fields, field, number_of}
use custom_consensus.Cose.Validation.{
  CoseOutside, unknown_kid, panicked, refused, accepted, expect, ensure, registry_register,
  registry_get, kid_of, parts_of, protected_of, triad_from_array, check_signature, validate_cose_tx,
  extract_kid,
}
use custom_consensus.Chain.{Block, Chain}
use custom_consensus.Chain.Cascade.{waiting_count}
use custom_consensus.Chain.Rooted.{AllSound, Grown, receive_block-Keeps, unchanged}
use custom_consensus.Chain.Checks.{Libs, verify_block}
use custom_consensus.Chain.Sync.{
  KeyAnswer, fetch_and_register_key, is_unknown_kid, retry_tx, check_outcome, check_tx,
  inject_parent, retry_waiting,
}

-- A message in the form of a transaction, up to its signature, that names a key.
pub record Names (o : CoseOutside) (tx kid : Bytes) : Type 0 where
  pub parts : Value × Value × Value × Value
  pub parts_in : parts_of o tx ≡ accepted parts
  pub triad : Bytes × Bytes × Bytes
  pub triad_in : triad_from_array o parts ≡ accepted triad
  pub protected : protected_of o parts.0 ≡ some triad.0
  pub header : Fields
  pub decoded : o.decode_map triad.0 ≡ some header
  pub alg : eqb_ℤ (number_of (field (pos 1) header)) (negsuc 7) ≡ true
  pub named : kid_of header ≡ accepted kid
  pub to_sign : Bytes
  pub encoded : o.sig_structure triad.0 triad.1 ≡ some to_sign

module _ (o : CoseOutside) (tx kid : Bytes) (n : Names o tx kid) where
  check_signature-none :
      (keys : Map Bytes)
      → registry_get keys kid ≡ none
      → check_signature o keys n.triad ≡ refused unknown_kid
  unfolding check_signature expect ensure
  check_signature-none keys absent =
      rw (n.decoded, n.alg, n.named, n.encoded, absent, check_signature, expect, ensure) refl

  check_signature-panicked :
      (keys : Map Bytes) (key : Bytes)
      → registry_get keys kid ≡ some key
      → (length key == 32) ≡ false
      → check_signature o keys n.triad ≡ panicked
  unfolding check_signature expect ensure
  check_signature-panicked keys key known short =
      rw (n.decoded, n.alg, n.named, n.encoded, known, short, check_signature, expect, ensure) refl

  extract_kid-Names : extract_kid o tx ≡ accepted kid
  unfolding extract_kid expect
  extract_kid-Names = rw (n.parts_in, n.protected, n.decoded, extract_kid, expect) n.named

  validate_cose_tx-none :
      (keys : Map Bytes)
      → registry_get keys kid ≡ none
      → validate_cose_tx o keys tx ≡ refused unknown_kid
  unfolding validate_cose_tx
  validate_cose_tx-none keys absent =
      rw (n.parts_in, n.triad_in, check_signature-none keys absent, validate_cose_tx) refl

  validate_cose_tx-panicked :
      (keys : Map Bytes) (key : Bytes)
      → registry_get keys kid ≡ some key
      → (length key == 32) ≡ false
      → validate_cose_tx o keys tx ≡ panicked
  unfolding validate_cose_tx
  validate_cose_tx-panicked keys key known short =
      rw (n.parts_in, n.triad_in, check_signature-panicked keys key known short, validate_cose_tx)
        refl

registry_get-register :
    (keys : Map Bytes) (kid key : Bytes)
    → registry_get (registry_register keys kid key) kid ≡ some key
unfolding registry_get registry_register
registry_get-register keys kid key = get-put_self (hex_encode kid) key keys

-- A peer that does not answer, says that it has no key, or sends one that is not hexadecimal.
abbrev pub Silent : Option KeyAnswer → Type 0
Silent none = Unit {0}
Silent (some a) = (a.found ≡ false) ⊎ (hex_decode a.key_hex ≡ none)

fetched_first :
    (keys : Map Bytes) (kid : Bytes) (silent : List (Option KeyAnswer)) (a : KeyAnswer)
    (rest : List (Option KeyAnswer)) (key : Bytes)
    → All Silent silent
    → a.found ≡ true
    → hex_decode a.key_hex ≡ some key
    → fetch_and_register_key keys kid (silent ++ some a ∷ rest)
      ≡ (registry_register keys kid key, true)
unfolding fetch_and_register_key
fetched_first keys kid [] a rest key q found d = rw (found, d, fetch_and_register_key) refl
fetched_first keys kid (none ∷ silent) a rest key (h, q) found d =
    fetched_first keys kid silent a rest key q found d
fetched_first keys kid (some b ∷ silent) a rest key (inl h, q) found d =
    rw (h, fetch_and_register_key) (fetched_first keys kid silent a rest key q found d)
fetched_first keys kid (some b ∷ silent) a rest key (inr h, q) found d = elim (Bool-cases b.found) [
  | inl claims ↦
      rw (claims, h, fetch_and_register_key) (fetched_first keys kid silent a rest key q found d)
  | inr denies ↦
      rw (denies, fetch_and_register_key) (fetched_first keys kid silent a rest key q found d)
]

-- A transaction in the right form with an unknown key id: the first peer that answers with a key, after
-- any that fail, have none or send no hexadecimal, decides under which key it is checked. Its answer is
-- stored for the key id, although nothing relates the two, and unless it has the 32 bytes of an Ed25519
-- key the check panics.
pub check_tx_fetched :
    (o : CoseOutside) (peers : Bytes → List (Option KeyAnswer)) (keys : Map Bytes) (tx kid : Bytes)
    (silent : List (Option KeyAnswer)) (a : KeyAnswer) (rest : List (Option KeyAnswer))
    (key : Bytes)
    → Names o tx kid
    → registry_get keys kid ≡ none
    → peers kid ≡ silent ++ some a ∷ rest
    → All Silent silent
    → a.found ≡ true
    → hex_decode a.key_hex ≡ some key
    → let keys' = registry_register keys kid key in
      (check_tx o peers keys tx ≡ (keys', validate_cose_tx o keys' tx))
      × ((length key ≡ 32) ⊎ (validate_cose_tx o keys' tx ≡ panicked))
unfolding check_tx check_outcome is_unknown_kid retry_tx
check_tx_fetched o peers keys tx kid silent a rest key n absent asked quiet found d = (
  rw
      (
        validate_cose_tx-none o tx kid n keys absent,
        extract_kid-Names o tx kid n,
        asked,
        fetched_first keys kid silent a rest key quiet found d,
        check_tx,
        check_outcome,
        retry_tx,
      )
      refl,
  elim (Bool-cases (length key == 32)) [
    | inl long ↦ inl (ground arith)
    | inr short ↦ inr (
        validate_cose_tx-panicked o tx kid n (registry_register keys kid key) key
          (registry_get-register keys kid key) short)
  ],
)

-- With fuel for one call more than blocks wait, fetching a parent returns and leaves every saved block
-- known and rooted, if they were; known blocks and indexed transactions stay.
pub inject_parent-Keeps :
    (l : Libs) (fuel : ℕ) (c : Chain) (peers : List (Option Block))
    → waiting_count c < fuel
    → AllSound c
    → (c' : Chain) × (inject_parent l fuel c peers ≡ some c') × AllSound c' × Grown c c'
unfolding inject_parent
inject_parent-Keeps l fuel c [] small a = (c, refl, a, unchanged c)
inject_parent-Keeps l fuel c (none ∷ peers) small a = inject_parent-Keeps l fuel c peers small a
inject_parent-Keeps l fuel c (some b ∷ peers) small a = elim (Option-cases (verify_block l b)) [
  | inl valid ↦
      let (c', returned, sound, grown, _) = receive_block-Keeps fuel c b small a in
      (c', rw (valid, inject_parent) returned, sound, grown)
  | inr (e, bad) ↦ rw (bad, inject_parent) (inject_parent-Keeps l fuel c peers small a)
]

Grown-trans : (c d e : Chain) → Grown c d → Grown d e → Grown c e
Grown-trans c d e g h = record {
  known_stays = λ k. elim (g.known_stays k) [
    | inl absent ↦ inl absent
    | inr there ↦ elim (h.known_stays k) [
      | inl absent ↦ absurd (ground arith)
      | inr still ↦ inr still
    ]
  ];
  index_stays = λ id. elim (g.index_stays id) [
    | inl absent ↦ inl absent
    | inr same ↦ elim (h.index_stays id) [
      | inl absent ↦ inl (sym same ∙ absent)
      | inr still ↦ inr (still ∙ same)
    ]
  ];
}

-- A tick of the retry loop returns, whatever the peers send. It leaves every saved block known and
-- rooted, if they were, and known blocks and indexed transactions stay.
pub retry_waiting-Keeps :
    (l : Libs) (peers : Bytes → List (Option Block)) (keys : List Text) (c : Chain)
    → AllSound c
    → (c' : Chain) × (retry_waiting l peers keys c ≡ some c') × AllSound c' × Grown c c'
unfolding retry_waiting
retry_waiting-Keeps l peers [] c a = (c, refl, a, unchanged c)
retry_waiting-Keeps l peers (key ∷ keys) c a = elim (Option-cases (hex_decode key)) [
  | inl bad ↦ rw (bad, retry_waiting) (retry_waiting-Keeps l peers keys c a)
  | inr (parent, decoded) ↦
      let (c₁, injected, a₁, grown₁) =
        inject_parent-Keeps l (suc (waiting_count c)) c (peers parent) (omega arith) a in
      let (c₂, returned, a₂, grown₂) = retry_waiting-Keeps l peers keys c₁ a₁ in
      (c₂, rw (decoded, injected, retry_waiting) returned, a₂, Grown-trans c c₁ c₂ grown₁ grown₂)
]
