-- ===== src/L3/Steps/Ledger.antt =====
-- l3_finality.go: what the counters of every block satisfy, in every state that the service reaches.
pub mod Kept
use custom_consensus.Base.{
  ℕ, ◌+◌, ◌≤◌, ◌≡◌, ◌∙◌, refl, sym, ap, subst, inl, inr, Bool, true, false, not, Option, none, some,
  List, [], ◌∷◌, ◌++◌, Text, Bytes, Map, get, put, has, is_some, length, All, All-put, All-get,
  Distinct, put-Distinct, get-put, text_eq, length-put_new, Bool-cases, Option-cases, arith, ltb,
  if◌then◌else◌, hex_encode, put_small,
}
use custom_consensus.Base.Int.{ℤ, pos, negsuc}
use custom_consensus.Iot.{is_l3_attester}
use custom_consensus.L3.State.{
  Weights, L3Params, BlockCounters, L3, Outside, L3Status, l3_pending, l3_final, L3Attestation,
  CellRecord, FinalityEnvelope, fresh_counters, update_total_stake, start_l3,
}
use custom_consensus.L3.Cells.{register_cell}
use custom_consensus.L3.Finality.{
  is_final, attester_total, is_ready, maybe_finalize, finalized, finalizes, build_envelope,
  recheck_one, recheck_loop, recheck_pending,
}
use custom_consensus.L3.Handlers.{
  or_fresh, counters_of, ensure_block, with_meta, with_qc, with_vote, attested, on_envelope,
  vote_of_device, note_attester, update_device_total,
}
use custom_consensus.L3.Steps.{
  Step, ensure, meta, stake, devices, cell, status, failure, attest, device, descendant, recheck,
  hear, Reach, start, next, count_failure,
}
use custom_consensus.L3.Steps.Cases.{
  accept_attestation-cases, record_device_attestation-cases, record_descendant_qc-cases,
  record_block_meta-cases,
}
use custom_consensus.L3.Steps.Final.{
  Same, maybe_finalize-Same, maybe_finalize-blocks, left_counters,
}

-- The counters of a block: only L3 attesters vote; the cells are those with an attestation, and
-- `auditsPassed` counts them; the block has an envelope exactly when it is final.
pub record Sound {R : Type 0} (blk : BlockCounters R) : Type 0 where
  pub voters : All (λ d. is_l3_attester d.0 ≡ true) blk.device_votes
  pub same_keys : (c : Text) → has c blk.cells ≡ has c blk.attestations
  pub counted : length blk.cells ≡ blk.audits_passed
  pub enveloped : is_final blk.status ≡ is_some blk.envelope

-- So it is for all blocks, and the attesters are among the devices.
pub record Ledger {R : Type 0} (s : L3 R) : Type 0 where
  pub entries : All (λ e. Sound e.1) s.blocks
  pub few_attesters : length s.attesters ≤ s.devices_total

has-put :
    {V : Type 0} (k c : Text) (v : V) (m : Map V)
    → has c (put k v m) ≡ (if text_eq k c then true else has c m)
unfolding has is_some
has-put k c v m = ground (arith, get-put k c v m)

get_of_has : {V : Type 0} (k : Text) (m : Map V) → has k m ≡ false → get k m ≡ none
unfolding has is_some
get_of_has k m e = ground arith

module _ {R : Type 0} where
  with_vote-Sound :
      (blk : BlockCounters R) (id : Text)
      → is_l3_attester id ≡ true
      → Sound blk
      → Sound (with_vote blk id)
  unfolding with_vote
  with_vote-Sound blk id h v = record {
    voters = All-put _ id tt blk.device_votes h v.voters;
    same_keys = v.same_keys;
    counted = v.counted;
    enveloped = v.enveloped;
  }

  attested-Sound :
      (blk : BlockCounters R) (att : L3Attestation)
      → is_final blk.status ≡ false
      → has att.cell_id blk.attestations ≡ false
      → Sound blk
      → Sound (attested blk att)
  unfolding attested is_final
  attested-Sound blk att pending new v =
      let fresh = get_of_has att.cell_id blk.cells (v.same_keys att.cell_id ∙ new) in
      record {
        voters = v.voters;
        same_keys = λ c.
            has-put att.cell_id c tt blk.cells
            ∙ ap (λ x. if text_eq att.cell_id c then true else x) (v.same_keys c)
            ∙ sym (has-put att.cell_id c att blk.attestations);
        counted = length-put_new att.cell_id tt blk.cells fresh ∙ ap (λ n. n + 1) v.counted;
        enveloped = sym pending ∙ v.enveloped;
      }

  finalized-Sound :
      (blk : BlockCounters R) (env : FinalityEnvelope R) → Sound blk → Sound (finalized blk env)
  unfolding finalized is_final is_some
  finalized-Sound blk env v = record {
    voters = v.voters;
    same_keys = v.same_keys;
    counted = v.counted;
    enveloped = refl;
  }

  module _ (w : Weights R) where
    fresh_counters-Sound : (now : ℕ) → Sound (fresh_counters w now)
    unfolding fresh_counters is_final is_some has get
    fresh_counters-Sound now = record {
      voters = tt;
      same_keys = λ c. refl;
      counted = refl;
      enveloped = refl;
    }

    with_qc-Sound : (blk : BlockCounters R) (ref : _) → Sound blk → Sound (with_qc w blk ref)
    unfolding with_qc
    with_qc-Sound blk ref v = record {
      voters = v.voters;
      same_keys = v.same_keys;
      counted = v.counted;
      enveloped = v.enveloped;
    }

    with_meta-Sound :
        (blk : BlockCounters R) (p : Text) (h : ℤ) (e : ℕ) (c : Bytes) (l : Bool)
        → Sound blk
        → Sound (with_meta blk p h e c l)
    unfolding with_meta
    with_meta-Sound blk p h e c l v = record {
      voters = v.voters;
      same_keys = v.same_keys;
      counted = v.counted;
      enveloped = v.enveloped;
    }

    or_fresh-Sound :
        (v : Option (BlockCounters R)) (now : ℕ)
        → ((blk : BlockCounters R) → v ≡ some blk → Sound blk)
        → Sound (or_fresh w v now)
    unfolding or_fresh
    or_fresh-Sound none now h = fresh_counters-Sound now
    or_fresh-Sound (some blk) now h = h blk refl

    counters_of-Sound : (s : L3 R) (b : Text) (now : ℕ) → Ledger s → Sound (counters_of w s b now)
    unfolding counters_of
    counters_of-Sound s b now v =
        or_fresh-Sound (get b s.blocks) now
          (λ blk e. All-get (λ x. Sound x.1) b blk s.blocks e v.entries)

    -- A write of sound counters.
    put-Ledger :
        (s : L3 R) (b : Text) (blk : BlockCounters R)
        → Ledger s
        → Sound blk
        → Ledger (record s { blocks = put b blk s.blocks })
    put-Ledger s b blk v h = record {
      entries = All-put (λ e. Sound e.1) b blk s.blocks h v.entries;
      few_attesters = v.few_attesters;
    }

    ensure_block-Ledger :
        (s : L3 R) (b : Text) (now : ℕ) → Ledger s → Ledger (ensure_block w s b now)
    unfolding ensure_block
    ensure_block-Ledger s b now v =
        put-Ledger s b (counters_of w s b now) v (counters_of-Sound s b now v)

    module _ (o : Outside R) where
      left_counters-Sound :
          (s : L3 R) (b : Text) (blk : BlockCounters R) (now : ℕ)
          → Sound blk
          → Sound (left_counters w o s b blk now)
      unfolding left_counters
      left_counters-Sound s b blk now v = elim (Bool-cases (finalizes w s blk now)) [
        | inl done ↦ rw (done, left_counters) (finalized-Sound blk (build_envelope s b blk now) v)
        | inr pending ↦ rw (pending, left_counters) v
      ]

      maybe_finalize-Ledger :
          (s : L3 R) (b : Text) (blk : BlockCounters R) (now : ℕ)
          → Ledger s
          → Sound blk
          → Ledger (maybe_finalize w o s b blk now)
      maybe_finalize-Ledger s b blk now v h =
          let same = maybe_finalize-Same w o s b blk now in
          record {
            entries = subst (All (λ e. Sound e.1)) (sym (maybe_finalize-blocks w o s b blk now)) (
                All-put (λ e. Sound e.1) b _ s.blocks (left_counters-Sound s b blk now h)
                  v.entries);
            few_attesters = rw (same.same_attesters, same.same_devices) v.few_attesters;
          }

      recheck_one-Ledger :
          (s : L3 R) (now : ℕ) (b : Text) (x : Option (BlockCounters R))
          → get b s.blocks ≡ x
          → Ledger s
          → Ledger (recheck_one w o s now b x)
      unfolding recheck_one
      recheck_one-Ledger s now b none e v = v
      recheck_one-Ledger s now b (some blk) e v = elim (Bool-cases (is_final blk.status)) [
        | inl fin ↦ rw (fin, recheck_one) v
        | inr pending ↦
            rw (pending, recheck_one)
              (maybe_finalize-Ledger s b blk now v
                (All-get (λ y. Sound y.1) b blk s.blocks e v.entries))
      ]

      recheck_loop-Ledger :
          (m : Map (BlockCounters R)) (s : L3 R) (now : ℕ)
          → Ledger s
          → Ledger (recheck_loop w o s now m)
      unfolding recheck_loop
      recheck_loop-Ledger [] s now v = v
      recheck_loop-Ledger ((b, x) ∷ m) s now v =
          recheck_loop-Ledger m _ now (recheck_one-Ledger s now b (get b s.blocks) refl v)
