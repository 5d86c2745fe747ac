-- ===== src/Aion/ChainEntropy.antt =====
-- internal/aion/chainentropy.go: the entropy of the data bytes in an epoch's blocks.
use custom_consensus.Base.{
  ℕ, zero, suc, ◌+◌, ◌-◌, ◌*◌, ◌%◌, ◌^◌, ◌≤◌, ◌<◌, ◌≡◌, refl, ap, Bool, true, false, not, ◌||◌, ◌∙◌,
  text_eq, Option, none, some, List, [], ◌∷◌, length, Bytes, Text, ltb, ◌==◌, if◌then◌else◌, arith,
}
use custom_consensus.Aion.Weight.{normalize_entropy_q16, normalize_entropy_q16_lem}
use custom_consensus.Aion.Entropy.{h_min_bits, h_renyi2_bits, h_lower_bound_bits}

-- What is read of a chain: the transactions of the block at a height (`GetHashByHeight` and
-- `LoadBlockByHash`), and the data of a transaction, decoded and encoded again by the CBOR and COSE
-- libraries: `data_of` for any transaction, `device_data_of` with the device that sent it.
pub record ChainView : Type 0 where
  pub txs_at : ℕ → Option (List Bytes)
  pub data_of : Bytes → Option Bytes
  pub device_data_of : Bytes → Option (Text × Bytes)

-- `freq[b]++`
unfoldable pub bump : ℕ → List ℕ → List ℕ
bump b [] = []
bump zero (f ∷ fs) = (f + 1) % 2 ^ 64 ∷ fs
bump (suc b) (f ∷ fs) = f ∷ bump b fs

unfoldable pub add_bytes : Bytes → List ℕ → List ℕ
add_bytes [] freq = freq
add_bytes (b ∷ bs) freq = add_bytes bs (bump b freq)

unfoldable pub zeros : ℕ → List ℕ
zeros zero = []
zeros (suc n) = 0 ∷ zeros n

unfoldable pub max_count : ℕ → List ℕ → ℕ
max_count m [] = m
max_count m (f ∷ fs) = max_count (if ltb m f then f else m) fs

unfoldable pub sum_squares : ℕ → List ℕ → ℕ
sum_squares s [] = s
sum_squares s (f ∷ fs) = sum_squares ((s + f * f % 2 ^ 64) % 2 ^ 64) fs

-- The number of bytes and the histogram.
abbrev pub Tally : Type 0
Tally = ℕ × List ℕ

unfoldable pub tally_bytes : Bytes → Tally → Tally
tally_bytes bs (n, freq) = ((n + length bs) % 2 ^ 64, add_bytes bs freq)

-- The last lines of both functions.
unfoldable pub normalized : Tally → ℕ
normalized (n, freq) =
    let hmin = h_min_bits n (max_count 0 freq) 128 in
    let h2 = h_renyi2_bits n (sum_squares 0 freq) 128 in
    if n == 0 then 0 else normalize_entropy_q16 (h_lower_bound_bits (hmin ∷ h2 ∷ []))

-- An `int64` of a `uint64`, if it is not negative.
non_negative : ℕ → Option ℕ
non_negative n = if ltb (n % 2 ^ 64) (2 ^ 63) then some (n % 2 ^ 64) else none

-- `int64(epoch*epochLen) + 1`, if positive, and `int64((epoch + 1) * epochLen)`.
unfoldable pub first_height : ℕ → ℕ → Option ℕ
unfolding non_negative
first_height epoch len = elim (non_negative (epoch * len)) [
  | none ↦ none
  | some n ↦ if n + 1 == 2 ^ 63 then none else some (n + 1)
]

unfoldable pub last_height : ℕ → ℕ → Option ℕ
unfolding non_negative
last_height epoch len = non_negative ((epoch + 1) % 2 ^ 64 * len)

module _ (view : ChainView) where
  unfoldable pub add_tx : Bytes → Tally → Tally
  add_tx tx t = elim (view.data_of tx) [ none ↦ t | some bs ↦ tally_bytes bs t ]

  unfoldable pub add_txs : List Bytes → Tally → Tally
  add_txs [] t = t
  add_txs (tx ∷ txs) t = add_txs txs (add_tx tx t)

  unfoldable pub add_block : Option (List Bytes) → Tally → Tally
  add_block none t = t
  add_block (some txs) t = add_txs txs t

  -- `n` heights from this one on.
  unfoldable pub scan : ℕ → ℕ → Tally → Tally
  scan zero h t = t
  scan (suc n) h t = scan n (h + 1) (add_block (view.txs_at h) t)

  unfoldable pub range_entropy : Option ℕ → Option ℕ → ℕ
  range_entropy (some start) (some end) =
      if ltb end start then 0 else normalized (scan (end + 1 - start) start (0, zeros 256))
  range_entropy _ _ = 0

  -- `EpochEntropyQ16`
  unfoldable pub epoch_entropy_q16 : ℕ → ℕ → ℕ
  unfolding range_entropy
  epoch_entropy_q16 epoch len =
      if len == 0 then 0 else range_entropy (first_height epoch len) (last_height epoch len)

-- Only the devices of a cell.
unfoldable pub member : Text → List Text → Bool
member id [] = false
member id (k ∷ ks) = let rest = member id ks in if text_eq k id then true else rest

module _ (view : ChainView) (ids : List Text) where
  unfoldable pub add_device_tx : Bytes → Tally → Tally
  add_device_tx tx t = elim (view.device_data_of tx) [
    | none ↦ t
    | some found ↦ if member found.0 ids then tally_bytes found.1 t else t
  ]

  unfoldable pub add_device_txs : List Bytes → Tally → Tally
  add_device_txs [] t = t
  add_device_txs (tx ∷ txs) t = add_device_txs txs (add_device_tx tx t)

  unfoldable pub add_device_block : Option (List Bytes) → Tally → Tally
  add_device_block none t = t
  add_device_block (some txs) t = add_device_txs txs t

  unfoldable pub scan_devices : ℕ → ℕ → Tally → Tally
  scan_devices zero h t = t
  scan_devices (suc n) h t = scan_devices n (h + 1) (add_device_block (view.txs_at h) t)

  unfoldable pub range_device_entropy : Option ℕ → Option ℕ → ℕ
  range_device_entropy (some start) (some end) =
      if ltb end start then 0 else normalized (scan_devices (end + 1 - start) start (0, zeros 256))
  range_device_entropy _ _ = 0

  -- `EpochEntropyForCellQ16`, for an active cell or not, with these devices.
  unfoldable pub epoch_entropy_for_cell_q16 : Bool → ℕ → ℕ → ℕ
  epoch_entropy_for_cell_q16 active epoch len =
      if not active || (len == 0)
      then 0
      else range_device_entropy (first_height epoch len) (last_height epoch len)

normalized-le : (t : Tally) → normalized t ≤ 65536
unfolding normalized
normalized-le (n, freq) =
    let bits =
      h_lower_bound_bits
        (h_min_bits n (max_count 0 freq) 128 ∷ h_renyi2_bits n (sum_squares 0 freq) 128 ∷ []) in
    let (_, le) = normalize_entropy_q16_lem bits in ground (arith, le)

range_entropy-le : (view : ChainView) (a b : Option ℕ) → range_entropy view a b ≤ 65536
unfolding range_entropy
range_entropy-le view none b = omega arith
range_entropy-le view (some start) none = omega arith
range_entropy-le view (some start) (some end) =
    ground (arith, normalized-le (scan view (end + 1 - start) start (0, zeros 256)))

-- The entropy of an epoch is at most 1.0.
pub epoch_entropy_q16-le :
    (view : ChainView) (epoch len : ℕ) → epoch_entropy_q16 view epoch len ≤ 65536
unfolding epoch_entropy_q16
epoch_entropy_q16-le view epoch len =
    ground (arith, range_entropy-le view (first_height epoch len) (last_height epoch len))

-- Two nodes that decode transactions in the same way.
module _ (v u : ChainView) (same : (tx : Bytes) → v.data_of tx ≡ u.data_of tx) where
  add_tx_same : (tx : Bytes) (t : Tally) → add_tx v tx t ≡ add_tx u tx t
  unfolding add_tx
  add_tx_same tx t = rw (same tx, add_tx) refl

  add_txs_same : (txs : List Bytes) (t : Tally) → add_txs v txs t ≡ add_txs u txs t
  unfolding add_txs
  add_txs_same [] t = refl
  add_txs_same (tx ∷ txs) t =
      ap (add_txs v txs) (add_tx_same tx t) ∙ add_txs_same txs (add_tx u tx t)

  add_block_same : (b : Option (List Bytes)) (t : Tally) → add_block v b t ≡ add_block u b t
  unfolding add_block
  add_block_same none t = refl
  add_block_same (some txs) t = add_txs_same txs t

  scan_same :
      (n h : ℕ) (t : Tally)
      → ((k : ℕ) → h ≤ k → k < h + n → v.txs_at k ≡ u.txs_at k)
      → scan v n h t ≡ scan u n h t
  unfolding scan
  scan_same zero h t agree = refl
  scan_same (suc n) h t agree =
      ap (scan v n (h + 1)) (
        add_block_same (v.txs_at h) t
        ∙ ap (λ b. add_block u b t) (agree h (omega arith) (omega arith)))
      ∙ scan_same n (h + 1) (add_block u (u.txs_at h) t)
          (λ k le lt. agree k (omega arith) (omega arith))

first_height_lem :
    (epoch len : ℕ) → epoch * len + 1 < 2 ^ 63 → first_height epoch len ≡ some (epoch * len + 1)
unfolding first_height
first_height_lem epoch len h = ground arith

last_height_lem :
    (epoch len : ℕ)
    → epoch + 1 < 2 ^ 64
    → (epoch + 1) * len < 2 ^ 63
    → last_height epoch len ≡ some ((epoch + 1) * len)
unfolding last_height
last_height_lem epoch len small h =
    let e : (epoch + 1) % 2 ^ 64 ≡ epoch + 1 = omega arith in rw e (ground arith)

-- Two nodes that decode transactions in the same way and have the same blocks in the heights of an
-- epoch compute the same entropy of it, whatever else is on their chains.
pub epoch_entropy_q16_local :
    (v u : ChainView) (epoch len : ℕ)
    → ((tx : Bytes) → v.data_of tx ≡ u.data_of tx)
    → ((k : ℕ) → epoch * len < k → k ≤ (epoch + 1) * len → v.txs_at k ≡ u.txs_at k)
    → epoch + 1 < 2 ^ 64
    → (epoch + 1) * len + 1 < 2 ^ 63
    → epoch_entropy_q16 v epoch len ≡ epoch_entropy_q16 u epoch len
unfolding epoch_entropy_q16 range_entropy
epoch_entropy_q16_local v u epoch len same agree small fits =
    let start = first_height_lem epoch len (grind arith) in
    let end = last_height_lem epoch len small (omega arith) in
    rw (start, end)
      (ap
        (λ t.
          if len == 0
          then 0
          else if ltb ((epoch + 1) * len) (epoch * len + 1)
          then 0
          else normalized t)
        (scan_same v u same ((epoch + 1) * len + 1 - (epoch * len + 1)) (epoch * len + 1)
          (0, zeros 256) (λ k le lt. agree k (omega arith) (within le lt))))
  where
    within :
        {k : ℕ}
        → epoch * len + 1 ≤ k
        → k < epoch * len + 1 + ((epoch + 1) * len + 1 - (epoch * len + 1))
        → k ≤ (epoch + 1) * len
    within le lt = grind arith
