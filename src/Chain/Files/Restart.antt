-- ===== src/Chain/Files/Restart.antt =====
-- internal/blockchain/block.go: a chain that is read from its files again.
use custom_consensus.Base.{
  ℕ, ◌<◌, ◌≡◌, ◌∙◌, refl, sym, ap, subst, is_empty, ◌⊎◌, inl, inr, true, none, some, [], ◌∷◌, List,
  Text, text_eq, Map, get, get-put, arith,
}
use custom_consensus.Base.Int.{pos}
use custom_consensus.Iot.{to_lower}
use custom_consensus.Chain.{
  Block, Chain, SavedIndex, TxRef, record_known, move_tip, save_block, save_index, save_tx_index,
  record_block, receive_block,
}
use custom_consensus.Chain.Cascade.{waiting_count}
use custom_consensus.Chain.Cascade.Kept.{receive_block-kept}
use custom_consensus.Chain.Files.{
  index_json, json_field, number_field, string_field, heights_field, put_all, decoded_part, tip_of,
  set_index, load_json, load_index, load_tx_index, empty_chain, get_chain,
}

get-put_all : {V : Type 0} (k : Text) (m : Map V) → get k (put_all m []) ≡ get k m
unfolding put_all get
get-put_all k [] = refl
get-put_all k ((j, v) ∷ m) = ground (arith, get-put j k v (put_all m []), get-put_all k m)

-- The files hold the chain, or nothing is known and there are no files yet.
pub record Stored (c : Chain) : Type 0 where
  pub index :
      c.disk.index
      ≡ some (record { tip_height = c.tip_height; tip_hash = c.tip_hash; known = c.known })
  pub txs : c.disk.tx_index ≡ some c.tx_index

pub record Blank (c : Chain) : Type 0 where
  pub no_known : c.known ≡ []
  pub no_txs : c.tx_index ≡ []
  pub no_index : c.disk.index ≡ none
  pub no_tx_index : c.disk.tx_index ≡ none

abbrev pub Written : Chain → Type 0
Written c = (c.has_data_dir ≡ true) × (Stored c ⊎ Blank c)

move_tip-has_data_dir :
    (c : Chain) (b : Block)
    → (move_tip (record_known c b.hash b.height) b).has_data_dir ≡ c.has_data_dir
unfolding move_tip record_known
move_tip-has_data_dir c b = ground arith

saved-Stored :
    (d : Chain) (b : Block) (m : Map TxRef)
    → d.has_data_dir ≡ true
    → let t = save_tx_index (record (save_index (save_block d b)) { tx_index = m }) in
      (t.has_data_dir ≡ true) × Stored t
unfolding save_tx_index save_index save_block
saved-Stored d b m h =
    rw (h, save_tx_index, save_index, save_block) (refl, record { index = refl; txs = refl })

record_block-Written : (c : Chain) (b : Block) → Written c → Written (record_block c b)
unfolding record_block
record_block-Written c b (dir, w) =
    let d = move_tip (record_known c b.hash b.height) b in
    let (h, s) = saved-Stored d b _ (move_tip-has_data_dir c b ∙ dir) in (h, inl s)

waits-Written : (c : Chain) (w : Map (List Block)) → Written c → Written (record c { waiting = w })
waits-Written c w (dir, inl s) = (dir, inl (record { index = s.index; txs = s.txs }))
waits-Written c w (dir, inr s) = (
  dir,
  inr (record {
    no_known = s.no_known;
    no_txs = s.no_txs;
    no_index = s.no_index;
    no_tx_index = s.no_tx_index;
  }),
)

-- What the chain that is read again has of the one that was written.
pub record Restarted (c r : Chain) : Type 0 where
  pub no_height : r.tip_height ≡ pos 0
  pub no_hash : r.tip_hash ≡ []
  pub nothing_waits : r.waiting ≡ []
  pub same_known : (k : Text) → get k r.known ≡ get k c.known
  pub same_txs : (id : Text) → get id r.tx_index ≡ get id c.tx_index

load_index_saved :
    (c : Chain) (idx : SavedIndex) → load_index c (some idx) ≡ set_index c (pos 0) [] idx.known
unfolding load_index load_json index_json json_field text_eq to_lower number_field string_field
    heights_field
load_index_saved c idx = refl

get_chain-Stored :
    (c : Chain)
    → Stored c
    → get_chain c.has_data_dir c.disk
      ≡ load_tx_index
          (set_index (empty_chain c.has_data_dir c.disk) (pos 0) [] c.known)
          (some c.tx_index)
unfolding get_chain
get_chain-Stored c s =
    let base = empty_chain c.has_data_dir c.disk in
    let idx : SavedIndex = record {
      tip_height = c.tip_height;
      tip_hash = c.tip_hash;
      known = c.known;
    } in
    ap (λ v. load_tx_index (load_index base v) c.disk.tx_index) s.index
    ∙ ap (λ d. load_tx_index d c.disk.tx_index) (load_index_saved base idx)
    ∙ ap (load_tx_index (set_index base (pos 0) [] c.known)) s.txs

Stored-Restarted : (c : Chain) → Stored c → Restarted c (get_chain c.has_data_dir c.disk)
unfolding load_tx_index set_index tip_of decoded_part empty_chain is_empty
Stored-Restarted c s = subst (Restarted c) (sym (get_chain-Stored c s)) (record {
  no_height = refl;
  no_hash = refl;
  nothing_waits = refl;
  same_known = λ k. get-put_all k c.known;
  same_txs = λ k. get-put_all k c.tx_index;
})

Blank-Restarted : (c : Chain) → Blank c → Restarted c (get_chain c.has_data_dir c.disk)
unfolding get_chain load_tx_index load_index empty_chain
Blank-Restarted c s =
    rw (s.no_index, s.no_tx_index)
      (record {
        no_height = refl;
        no_hash = refl;
        nothing_waits = refl;
        same_known = λ k. ap (get k) (sym s.no_known);
        same_txs = λ k. ap (get k) (sym s.no_txs);
      })

Written-Restarted : (c : Chain) → Written c → Restarted c (get_chain c.has_data_dir c.disk)
Written-Restarted c (dir, inl s) = Stored-Restarted c s
Written-Restarted c (dir, inr s) = Blank-Restarted c s

-- For a chain with a data directory whose files hold it, and a received block, with fuel for one call
-- more than blocks wait: the files hold the chain afterwards as well. A node that reads them again
-- knows the same blocks at the same heights and finds the same transactions, but it has no tip: its
-- height is 0 and its hash is empty, since loadIndex does not find the names that saveIndex writes.
pub receive_block-Restarted :
    (fuel : ℕ) (c : Chain) (b : Block)
    → waiting_count c < fuel
    → Written c
    → (c' : Chain) × (receive_block fuel c b ≡ some c')
      × Written c'
      × Restarted c' (get_chain c'.has_data_dir c'.disk)
receive_block-Restarted fuel c b small w =
    let (c', returned, w') =
      receive_block-kept Written record_block-Written waits-Written fuel c b small w in
    (c', returned, w', Written-Restarted c' w')
