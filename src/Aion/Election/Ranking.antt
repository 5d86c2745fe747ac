-- ===== src/Aion/Election/Ranking.antt =====
-- internal/aion/gossip.go: the schedule of an epoch ranks its candidates.

use mathlib.Core.List.{Perm}
use mathlib.Core.List.Perm
use custom_consensus.Base.{
  ℕ, ◌-◌, ◌%◌, ◌≤◌, ◌<◌, ◌^◌, ◌≡◌, ◌∙◌, refl, sym, inl, inr, true, false, some, List, [], ◌∷◌, map,
  length, Bytes, IsBytes, Text, Map, All, Bool-cases, arith, ltb, if◌then◌else◌, hex_decode,
}
use custom_consensus.Base.Int.{pos, negsuc}
use custom_consensus.Aion.Scheduler.{Params}
use custom_consensus.Aion.Rank.{rank_value_lem, big_endian}
use custom_consensus.Aion.Order.{cmp_rank, cmp_rank-big_endian}
use custom_consensus.Aion.Weight.{weight_q16, weight_q16_exact}
use custom_consensus.Aion.ChainEntropy.{ChainView, epoch_entropy_q16-le}
use custom_consensus.Aion.Commitment.{Crypto}
use custom_consensus.Aion.Election.State.{VrfOutput}
use custom_consensus.Aion.Election.{
  Cand, ranks_before, insert_cand, sort_cands, pid_of, cand_of, cands_of, entropy_before,
  weight_for_epoch,
}

-- A rank of 33 bytes.
abbrev pub IsRank : Bytes → Type 0
IsRank r = (length r ≡ 33) × IsBytes r

-- The order of the ranks as numbers.
abbrev pub RankLe : Cand → Cand → Type 0
RankLe c d = big_endian c.rank ≤ big_endian d.rank

cmp_rank_eq :
    (r q : Bytes)
    → IsRank r
    → IsRank q
    → cmp_rank r q ≡ (
        if ltb (big_endian r) (big_endian q)
        then negsuc 0
        else if ltb (big_endian q) (big_endian r)
        then pos 1
        else pos 0)
cmp_rank_eq r q (n, b) (k, d) = cmp_rank-big_endian r q (n ∙ sym k) b d

ranks_before-le :
    (c d : Cand) → IsRank c.rank → IsRank d.rank → ranks_before c d ≡ true → RankLe c d
unfolding ranks_before
ranks_before-le c d p q h = ground (arith, cmp_rank_eq c.rank d.rank p q)

ranks_before-ge :
    (c d : Cand) → IsRank c.rank → IsRank d.rank → ranks_before c d ≡ false → RankLe d c
unfolding ranks_before
ranks_before-ge c d p q h = ground (arith, cmp_rank_eq c.rank d.rank p q)

-- Each candidate ranks no later than those after it.
abbrev pub Ranked : List Cand → Type 0
Ranked [] = Unit
Ranked (c ∷ cs) = All (RankLe c) cs × Ranked cs

abbrev pub AllRanks : List Cand → Type 0
AllRanks = All (λ c. IsRank c.rank)

All-insert_cand {κ} :
    (P : Cand → Type κ) (c : Cand) (ds : List Cand) → P c → All P ds → All P (insert_cand c ds)
unfolding insert_cand
All-insert_cand P c [] h a = (h, tt)
All-insert_cand P c (d ∷ ds) h (k, a) = elim (Bool-cases (ranks_before d c)) [
  | inl after ↦ rw (after, insert_cand) (k, All-insert_cand P c ds h a)
  | inr before ↦ rw (before, insert_cand) (h, (k, a))
]

All-le : (c d : Cand) (ds : List Cand) → RankLe c d → All (RankLe d) ds → All (RankLe c) ds
All-le c d [] h a = tt
All-le c d (x ∷ ds) h (k, a) = (omega arith, All-le c d ds h a)

insert_cand-Ranked :
    (c : Cand) (ds : List Cand)
    → IsRank c.rank
    → AllRanks ds
    → Ranked ds
    → Ranked (insert_cand c ds)
unfolding insert_cand
insert_cand-Ranked c [] h a r = (tt, tt)
insert_cand-Ranked c (d ∷ ds) h (k, a) (le, r) = elim (Bool-cases (ranks_before d c)) [
  | inl after ↦
      rw (after, insert_cand)
        (
          All-insert_cand (RankLe d) c ds (ranks_before-le d c k h after) le,
          insert_cand-Ranked c ds h a r,
        )
  | inr before ↦
      let c_d = ranks_before-ge d c k h before in
      rw (before, insert_cand) ((c_d, All-le c d ds c_d le), (le, r))
]

sort_cands-AllRanks : (cs : List Cand) → AllRanks cs → AllRanks (sort_cands cs)
unfolding sort_cands
sort_cands-AllRanks [] a = tt
sort_cands-AllRanks (c ∷ cs) (h, a) =
    All-insert_cand (λ d. IsRank d.rank) c (sort_cands cs) h (sort_cands-AllRanks cs a)

pub sort_cands-Ranked : (cs : List Cand) → AllRanks cs → Ranked (sort_cands cs)
unfolding sort_cands
sort_cands-Ranked [] a = tt
sort_cands-Ranked (c ∷ cs) (h, a) =
    insert_cand-Ranked c (sort_cands cs) h (sort_cands-AllRanks cs a) (sort_cands-Ranked cs a)

abbrev pub names : List Cand → List Text
names = map (λ c. c.pub_hex)

insert_cand-Perm :
    (c : Cand) (ds : List Cand) → Perm (names (insert_cand c ds)) (c.pub_hex ∷ names ds)
unfolding insert_cand
insert_cand-Perm c [] = Perm.rfl
insert_cand-Perm c (d ∷ ds) = elim (Bool-cases (ranks_before d c)) [
  | inr before ↦ rw (before, insert_cand) Perm.rfl
  | inl after ↦
      rw (after, insert_cand)
        (Perm.trans (Perm.cons d.pub_hex (insert_cand-Perm c ds))
          (Perm.swap c.pub_hex d.pub_hex (names ds)))
]

pub sort_cands-Perm : (cs : List Cand) → Perm (names (sort_cands cs)) (names cs)
unfolding sort_cands
sort_cands-Perm [] = Perm.rfl
sort_cands-Perm (c ∷ cs) =
    Perm.trans (insert_cand-Perm c (sort_cands cs)) (Perm.cons c.pub_hex (sort_cands-Perm cs))

-- The weight of an epoch is between 1.0 and the largest `uint32`.
entropy_before-le : (view : ChainView) (e len i : ℕ) → entropy_before view e len i ≤ 65536
unfolding entropy_before
entropy_before-le view e len i = ground (arith, epoch_entropy_q16-le view (e - 1 - i) len)

weight_q16-fits :
    (alpha a b c d : ℕ)
    → alpha < 2 ^ 32
    → a ≤ 65536
    → b ≤ 65536
    → c ≤ 65536
    → d ≤ 65536
    → (0 < weight_q16 alpha a b c d) × (weight_q16 alpha a b c d < 2 ^ 32)
weight_q16-fits alpha a b c d h ha hb hc hd =
    let exact =
      weight_q16_exact alpha a b c d h (omega arith) (omega arith) (omega arith) (omega arith) in
    (omega (arith, exact), omega (arith, exact))

pub weight_for_epoch-fits :
    (view : ChainView) (params : Params) (e : ℕ)
    → (0 < weight_for_epoch view params e) × (weight_for_epoch view params e < 2 ^ 32)
unfolding weight_for_epoch
weight_for_epoch-fits view params e =
    let len = params.epoch_length in
    let fits =
      weight_q16-fits (params.alpha_q16 % 2 ^ 32) (entropy_before view e len 0)
        (entropy_before view e len 1) (entropy_before view e len 2) (entropy_before view e len 3)
        (omega arith) (entropy_before-le view e len 0) (entropy_before-le view e len 1)
        (entropy_before-le view e len 2) (entropy_before-le view e len 3) in
    (ground (arith, fits.0), ground (arith, fits.1))

-- 32 bytes.
abbrev pub IsOutput : Bytes → Type 0
IsOutput y = (length y ≡ 32) × IsBytes y

module _ (c : Crypto) (view : ChainView) where
  cand_of-IsRank :
      (wt : ℕ) (k : Text) (y proof : Bytes)
      → 0 < wt
      → wt < 2 ^ 32
      → IsOutput y
      → (cand : Cand) × (cand_of c view wt k (record { y = y; proof = proof }) ≡ some cand)
        × (cand.pub_hex ≡ k)
        × IsRank cand.rank
  unfolding cand_of
  cand_of-IsRank wt k [] proof h small (n, b) = absurd (omega arith)
  cand_of-IsRank wt k (x ∷ y) proof h small (n, b) =
      let (r, e, value, len, bytes) = rank_value_lem x y wt b h small in
      let cand : Cand = record { pub_hex = k; pid = pid_of c view (hex_decode k); rank = r } in
      (cand, rw e refl, refl, (omega (arith, len), bytes))

  pub cands_of-AllRanks :
      (wt : ℕ) (m : Map VrfOutput)
      → 0 < wt
      → wt < 2 ^ 32
      → All (λ e. IsOutput e.1.y) m
      → (cs : List Cand) × (cands_of c view wt m ≡ some cs)
        × (names cs ≡ map (λ e. e.0) m)
        × AllRanks cs
  unfolding cands_of
  cands_of-AllRanks wt [] h small a = ([], refl, refl, tt)
  cands_of-AllRanks wt ((k, out) ∷ m) h small (o, a) =
      let (cand, e, name, rank) = cand_of-IsRank wt k out.y out.proof h small o in
      let (cs, f, same, ranks) = cands_of-AllRanks wt m h small a in
      (cand ∷ cs, rw (e, f) refl, cc, (rank, ranks))
