-- ===== src/L3/Cells.antt =====
-- l3_finality.go: the registry of cells.
use custom_consensus.Base.{
  ℕ, suc, Bool, true, false, Option, none, some, List, [], ◌∷◌, Text, text_lt, Map, get, put,
  if◌then◌else◌, is_empty,
}
use custom_consensus.L3.State.{
  CellStatus, cell_active, cell_offline, cell_quarantined, CellRecord, L3,
}

-- `Register`
unfoldable pub register : Map CellRecord → CellRecord → ℕ → Map CellRecord
register m rec now = put rec.id (record rec { status = cell_active; updated = now }) m

unfoldable pub with_status :
    Map CellRecord → Text → CellStatus → ℕ → Option CellRecord → Map CellRecord
with_status m id st now none = m
with_status m id st now (some rec) = put id (record rec { status = st; updated = now }) m

-- `UpdateStatus`
unfoldable pub update_status : Map CellRecord → Text → CellStatus → ℕ → Map CellRecord
unfolding with_status
update_status m id st now = with_status m id st now (get id m)

unfoldable pub is_active : CellStatus → Bool
is_active cell_active = true
is_active _ = false

-- `ActiveCount`
unfoldable pub active_count : Map CellRecord → ℕ
active_count [] = 0
active_count ((id, rec) ∷ m) =
    let rest = active_count m in if is_active rec.status then suc rest else rest

unfoldable pub insert_by_id : CellRecord → List CellRecord → List CellRecord
insert_by_id c [] = c ∷ []
insert_by_id c (d ∷ ds) =
    let rest = insert_by_id c ds in if text_lt d.id c.id then d ∷ rest else c ∷ d ∷ ds

-- `ActiveCells`, sorted by ID.
unfoldable pub active_cells : Map CellRecord → List CellRecord
active_cells [] = []
active_cells ((id, rec) ∷ m) =
    let rest = active_cells m in if is_active rec.status then insert_by_id rec rest else rest

module _ {R : Type 0} where
  -- `RegisterCell`
  unfoldable pub register_cell : L3 R → CellRecord → ℕ → L3 R
  register_cell s rec now =
      if is_empty rec.id then s else record s { cells = register s.cells rec now }

  -- `MarkCellOffline`
  unfoldable pub mark_cell_offline : L3 R → Text → ℕ → L3 R
  mark_cell_offline s id now = record s { cells = update_status s.cells id cell_offline now }

  -- `quarantineCell`
  unfoldable pub quarantine_cell : L3 R → Text → ℕ → L3 R
  quarantine_cell s id now = record s { cells = update_status s.cells id cell_quarantined now }
