-- ===== src/L1/Handlers.antt =====
-- l1_notarization.go: the handlers, and what the HTTP layer reads.
use custom_consensus.Base.{
  ℕ, zero, suc, ◌-◌, ◌/◌, ◌&&◌, ◌||◌, Option, none, some, List, [], ◌∷◌, ◌++◌, length, take, Bytes,
  Text, is_empty, hex_encode, Map, get, put, del, ltb, leb, ◌==◌, if◌then◌else◌,
}
use custom_consensus.Base.Int.{ℤ, pos, negsuc}
use custom_consensus.Iot.{to_lower}
use custom_consensus.L1.State.{L1, L1Attest, L1Notarized, L1Block, L1Outside}
use custom_consensus.L1.Records.{record_notarized, record_observed, update_attesters}

infixl 5 ◌>>=◌
abbrev ◌>>=◌ {ℓ κ} : {A : Type ℓ} {B : Type κ} → Option A → (A → Option B) → Option B
none >>= f = none
some a >>= f = f a

unfoldable pub set_or_none : Option (Map (Unit {0})) → Map (Unit {0})
set_or_none none = []
set_or_none (some set) = set

-- `s.seen[k]`
unfoldable pub seen_of : L1 → Text → Map (Unit {0})
unfolding set_or_none
seen_of s k = set_or_none (get k s.seen)

unfoldable pub attests_of : Map (List Bytes) → Text → List Bytes
attests_of m k = elim (get k m) [ none ↦ [] | some raw ↦ raw ]

-- The first attester of a block sets the time.
unfoldable pub first_times : L1 → Text → ℕ → Map ℕ
first_times s k now = elim (get k s.seen) [ none ↦ put k now s.first | some set ↦ s.first ]

unfoldable pub first_of : Map ℕ → Text → ℕ
first_of m k = elim (get k m) [ none ↦ 0 | some t ↦ t ]

-- The first locked section of `onAttest`.
unfoldable pub track : L1 → Text → Text → Bytes → ℕ → L1
unfolding attests_of
track s key att raw now = record s {
  seen = put key (put att tt (seen_of s key)) s.seen;
  first = first_times s key now;
  attests = put key (attests_of s.attests key ++ (raw ∷ [])) s.attests;
}

-- The end of `onAttest`, when there are enough attesters.
unfoldable pub notarize : L1 → L1Attest → ℕ → ℕ → ℕ → Option L1
notarize s a cnt first now =
    let key = hex_encode a.hash in
    do
      s' ← record_notarized s key a.epoch a.height cnt (now - first) now
      let out : L1Notarized = record {
        epoch = a.epoch;
        height = a.height;
        hash = a.hash;
        count = cnt;
        attesters = a.attester ∷ [];
      }
      some (record s' { seen = del key s'.seen; notarizations = out ∷ s'.notarizations })

unfoldable pub count_attest : L1 → L1Attest → Bytes → ℕ → Option L1
unfolding first_of
count_attest s a raw now =
    let key = hex_encode a.hash in
    let s₁ = track s key (hex_encode a.attester) raw now in
    let cnt = length (seen_of s₁ key) in
    do
      s₂ ← update_attesters s₁ key a.epoch a.height cnt now
      if leb s.min_attesters cnt then notarize s₂ a cnt (first_of s₁.first key) now else some s₂

unfoldable pub on_attest_decoded : L1 → Option L1Attest → Bytes → ℕ → Option L1
on_attest_decoded s none raw now = some s
on_attest_decoded s (some a) raw now =
    if is_empty a.hash || is_empty a.attester then some s else count_attest s a raw now

unfoldable pub epoch_at : ℕ → ℤ → ℕ
epoch_at slots (negsuc n) = 0
epoch_at slots (pos zero) = 0
epoch_at slots (pos (suc n)) = n / (if slots == 0 then 1 else slots)

module _ (o : L1Outside) where
  -- `onAttest`
  unfoldable pub on_attest : L1 → Bytes → ℕ → Option L1
  on_attest s raw now = on_attest_decoded s (o.decode_attest raw) raw now

  concat_sums : List Bytes → Bytes
  concat_sums [] = []
  concat_sums (t ∷ ts) = take 4 (o.sha256 t) ++ concat_sums ts

  -- The checksum over the first four bytes of the hashes of at most eight transactions.
  unfoldable pub sample_of : List Bytes → Bytes
  unfolding concat_sums
  sample_of txs = o.sha256 (concat_sums (take 8 txs))

  unfoldable pub own_attest : ℕ → ℤ → Bytes → Bytes → List Bytes → L1Attest
  own_attest epoch height hash producer_pub txs =
      let att : L1Attest = record {
        epoch = epoch;
        height = height;
        hash = hash;
        producer = producer_pub;
        attester = o.own_key;
        sample = sample_of txs;
        sig = [];
      } in
      record att { sig = o.own_sign (o.encode_attest att) }

  -- `OnBlockProposed`
  unfoldable pub on_block_proposed : L1 → ℕ → ℤ → Bytes → Bytes → List Bytes → ℕ → Option L1
  on_block_proposed s epoch height hash producer_pub txs now =
      let bytes = o.encode_attest (own_attest epoch height hash producer_pub txs) in
      if o.publishes bytes
      then on_attest (record s { published = bytes ∷ s.published }) bytes now
      else some s

  unfoldable pub on_l1_block_decoded : L1 → ℕ → Option L1Block → ℕ → Option L1
  on_l1_block_decoded s slots none now = some s
  on_l1_block_decoded s slots (some blk) now =
      let epoch = epoch_at slots blk.height in
      on_block_proposed
        (if is_empty blk.hash
          then s
          else record_observed s (hex_encode blk.hash) epoch blk.height now)
        epoch blk.height blk.hash blk.producer_pub blk.txs now

  -- `onBlock`, with the epoch length of the AION service.
  unfoldable pub on_l1_block : L1 → ℕ → Bytes → ℕ → Option L1
  on_l1_block s slots raw now = on_l1_block_decoded s slots (o.decode_block raw) now

-- A decoded, readable attestation.
pub record AttestationInfo : Type 0 where
  pub epoch : ℕ
  pub height : ℤ
  pub hash_hex : Text
  pub attester : Text
  pub producer : Text
  pub sample_hex : Text

-- The first `max` elements; all, if `max` is not positive.
unfoldable pub at_most_of {ℓ} : {A : Type ℓ} → ℤ → List A → List A
at_most_of (negsuc n) xs = xs
at_most_of (pos n) xs = if ltb 0 n && ltb n (length xs) then take n xs else xs

unfoldable pub info_of : L1Attest → AttestationInfo
info_of a = record {
  epoch = a.epoch;
  height = a.height;
  hash_hex = to_lower (hex_encode a.hash);
  attester = to_lower (hex_encode a.attester);
  producer = to_lower (hex_encode a.producer);
  sample_hex = to_lower (hex_encode a.sample);
}

module _ (o : L1Outside) where
  unfoldable pub decoded_infos : List Bytes → List AttestationInfo
  decoded_infos [] = []
  decoded_infos (raw ∷ raws) =
      let rest = decoded_infos raws in
      elim (o.decode_attest raw) [ none ↦ rest | some a ↦ info_of a ∷ rest ]

  -- `DecodeRawAttestations`
  unfoldable pub decode_raw_attestations : List Bytes → ℤ → List AttestationInfo
  decode_raw_attestations raws max = decoded_infos (at_most_of max raws)

  -- `GetAttestationInfos`
  unfoldable pub get_attestation_infos : L1 → Bytes → ℤ → List AttestationInfo
  unfolding attests_of
  get_attestation_infos s hash max =
      decoded_infos (at_most_of max (attests_of s.attests (hex_encode hash)))

-- `GetAttestationsFor`
unfoldable pub get_attestations_for : L1 → Bytes → ℤ → List Bytes
unfolding attests_of
get_attestations_for s hash max = at_most_of max (attests_of s.attests (hex_encode hash))
