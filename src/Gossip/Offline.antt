-- ===== src/Gossip/Offline.antt =====
-- internal/gossip/directory.go: who is offline after a sweep.
use custom_consensus.Base.{
  ℕ, ◌+◌, ◌≤◌, ◌<◌, ◌≡◌, ap, ◌⊎◌, inl, inr, refl, true, List, [], ◌∷◌, map, Map, Text, text_eq,
  eq_of_text_eq, ltb, All, Bool-cases, arith,
}
use custom_consensus.Base.Int.{pos}
use custom_consensus.Gossip.{
  NodeInfo, NodeDirectory, offline, swept_info, sweep_nodes, sweep_for, sweep_directory,
}

-- Offline, or heard of within the time to live.
abbrev pub Fresh : ℕ → ℕ → NodeInfo → Type 0
Fresh ttl now info = (info.status ≡ offline) ⊎ (now ≤ info.last_seen + ttl)

swept_info-Fresh : (ttl now : ℕ) (info : NodeInfo) → Fresh ttl now (swept_info ttl now info)
unfolding swept_info
swept_info-Fresh ttl now info = elim (Bool-cases (ltb (info.last_seen + ttl) now)) [
  | inr recent ↦ rw (recent, swept_info) (inr (ground arith))
  | inl stale ↦ elim (Bool-cases (text_eq info.status offline)) [
    | inl off ↦ rw (stale, off, swept_info) (inl (eq_of_text_eq info.status offline off))
    | inr other ↦ rw (stale, other, swept_info) (inl refl)
  ]
]

sweep_nodes-Fresh :
    (ttl now : ℕ) (m : Map NodeInfo) → All (λ e. Fresh ttl now e.1) (sweep_nodes ttl now m)
unfolding sweep_nodes
sweep_nodes-Fresh ttl now [] = tt
sweep_nodes-Fresh ttl now ((k, info) ∷ m) =
    (swept_info-Fresh ttl now info, sweep_nodes-Fresh ttl now m)

abbrev pub ids : Map NodeInfo → List Text
ids = map (λ e. e.0)

ids-sweep_nodes : (ttl now : ℕ) (m : Map NodeInfo) → ids (sweep_nodes ttl now m) ≡ ids m
unfolding sweep_nodes
ids-sweep_nodes ttl now [] = refl
ids-sweep_nodes ttl now ((k, info) ∷ m) = ap (◌∷◌ k) (ids-sweep_nodes ttl now m)

-- With a positive time to live every node is offline after a sweep or was heard of within that time, and
-- no node is added or removed.
pub sweep_directory-Fresh :
    (d : NodeDirectory) (ttl now : ℕ)
    → d.ttl ≡ pos ttl
    → 0 < ttl
    → All (λ e. Fresh ttl now e.1) (sweep_directory d now).nodes
      × (ids (sweep_directory d now).nodes ≡ ids d.nodes)
unfolding sweep_directory sweep_for
sweep_directory-Fresh d ttl now is h =
    let p : ltb 0 ttl ≡ true = ground arith in
    rw (is, p, sweep_for) (sweep_nodes-Fresh ttl now d.nodes, ids-sweep_nodes ttl now d.nodes)
