-- ===== src/Iot/Limits.antt =====
-- internal/iot/registry.go: the device limit and the errors of an update.
use custom_consensus.Base.{
  ◌⊎◌, subst, sym, ◌==◌, ℕ, ◌+◌, ◌≤◌, ◌<◌, ◌≡◌, ◌≢◌, refl, ap, inl, inr, true, false, Option, none,
  some, [], ◌∷◌, Text, Map, get, put, get-put_self, text_eq, eq_of_text_eq, Bool-cases, is_empty,
  arith,
}
use custom_consensus.Base.Int.{ℤ, pos}
use custom_consensus.Iot.{
  or_time, Device, Registry, RegistryError, registry_full, save_failed, Files, is_l3_attester,
  save_locked, non_attesters, limit_of, reached, stored_device, put_device, upsert,
  upsert_with_limit, get_device,
}

save_locked-by_id : (fs : Files) (r : Registry) → (save_locked fs r).0.by_id ≡ r.by_id
unfolding save_locked
save_locked-by_id fs r = ground arith

save_locked_error : (fs : Files) (r : Registry) → (save_locked fs r).1 ≢ some registry_full
unfolding save_locked
save_locked_error fs r = ground arith

non_attesters-put_attester :
    (k : Text) (d : Device) (m : Map Device)
    → is_l3_attester k ≡ true
    → non_attesters (put k d m) ≡ non_attesters m
unfolding non_attesters put
non_attesters-put_attester k d [] h = rw h refl
non_attesters-put_attester k d ((j, w) ∷ m) h = elim (Bool-cases (text_eq j k)) [
  | inl same ↦ rw (same, eq_of_text_eq j k same, put, non_attesters) refl
  | inr other ↦ rw (other, put, non_attesters, non_attesters-put_attester k d m h) refl
]

non_attesters-put_old :
    (k : Text) (d v : Device) (m : Map Device)
    → get k m ≡ some v
    → non_attesters (put k d m) ≡ non_attesters m
unfolding non_attesters put get
non_attesters-put_old k d v [] e = absurd (ground arith)
non_attesters-put_old k d v ((j, w) ∷ m) e = elim (Bool-cases (text_eq j k)) [
  | inl same ↦ rw (same, eq_of_text_eq j k same, put, non_attesters) refl
  | inr other ↦
      rw (other, put, non_attesters, non_attesters-put_old k d v m (rw (other, get) at e)) refl
]

non_attesters-put :
    (k : Text) (d : Device) (m : Map Device) → non_attesters (put k d m) ≤ non_attesters m + 1
unfolding non_attesters put
non_attesters-put k d [] = ground arith
non_attesters-put k d ((j, w) ∷ m) = elim (Bool-cases (text_eq j k)) [
  | inl same ↦ rw (same, eq_of_text_eq j k same, put, non_attesters) (ground arith)
  | inr other ↦ rw (other, put, non_attesters) (ground (arith, non_attesters-put k d m))
]

put_device-non_attesters :
    (fs : Files) (r : Registry) (d : Device)
    → non_attesters (put_device fs r d).0.by_id ≡ non_attesters (put d.device_id d r.by_id)
unfolding put_device
put_device-non_attesters fs r d = ap non_attesters (save_locked-by_id fs _)

room_left : (n m : ℕ) {k : ℕ} → 0 < n → k ≤ m + 1 → reached (pos n) m ≡ false → k ≤ n
unfolding reached
room_left n m h le e = ground arith

upsert-Within :
    (fs : Files) (r : Registry) (d : Device) (n now : ℕ) (o : Option Device)
    → get d.device_id r.by_id ≡ o
    → 0 < n
    → non_attesters r.by_id ≤ n
    → non_attesters (upsert fs r d (pos n) now o).0.by_id ≤ n
unfolding upsert stored_device
upsert-Within fs r d n now (some prev) e h within =
    rw
      (
        put_device-non_attesters fs r (stored_device d prev.first_seen now),
        non_attesters-put_old d.device_id (stored_device d prev.first_seen now) prev r.by_id e,
      )
      within
upsert-Within fs r d n now none e h within = elim (Bool-cases (is_l3_attester d.device_id)) [
  | inl attester ↦
      rw
        (
          attester,
          put_device-non_attesters fs r (stored_device d now now),
          non_attesters-put_attester d.device_id (stored_device d now now) r.by_id attester,
        )
        within
  | inr other ↦ elim (Bool-cases (reached (pos n) (non_attesters r.by_id))) [
    | inl full ↦ rw (other, full) within
    | inr room ↦
        rw (other, room, put_device-non_attesters fs r (stored_device d now now))
          (room_left n (non_attesters r.by_id) h
            (non_attesters-put d.device_id (stored_device d now now) r.by_id) room)
  ]
]

-- A positive limit, be it the caller's or the registry's own, is never exceeded: if at most as many
-- devices as the limit are registered, not counting L3 attesters, then so it is after any update.
pub upsert_with_limit-Within :
    (fs : Files) (r : Registry) (d : Device) (max : ℤ) (n now : ℕ)
    → limit_of r max ≡ pos n
    → 0 < n
    → non_attesters r.by_id ≤ n
    → non_attesters (upsert_with_limit fs r d max now).0.by_id ≤ n
unfolding upsert_with_limit
upsert_with_limit-Within fs r d max n now e h within =
    rw e (upsert-Within fs r d n now (get d.device_id r.by_id) refl h within)

-- A time that is filled in with a default if it is the zero time.
abbrev pub Filled : ℕ → ℕ → ℕ → Type 0
Filled t default u = ((t ≡ 0) × (u ≡ default)) ⊎ ((t ≢ 0) × (u ≡ t))

-- The time at which a device was first seen, which is now for a new one.
abbrev pub first_time : Option Device → ℕ → ℕ
first_time none now = now
first_time (some prev) now = prev.first_seen

-- The device is registered under its ID, as it was given but for the times.
pub record Registered (r : Registry) (d : Device) (now : ℕ) (r' : Registry) : Type 0 where
  pub first : ℕ
  pub last : ℕ
  pub found : get_device r' d.device_id ≡ some (record d { first_seen = first; last_seen = last })
  pub first_filled : Filled d.first_seen (first_time (get_device r d.device_id) now) first
  pub last_filled : Filled d.last_seen now last

-- What an update did, by the error it returned.
abbrev pub Stored : Files → Registry → Device → ℕ → Registry × Option RegistryError → Type 0
Stored fs r d now (r', some registry_full) =
    (r' ≡ r) × (get_device r d.device_id ≡ none) × (is_l3_attester d.device_id ≡ false)
Stored fs r d now (r', some save_failed) =
    Registered r d now r' × ((r'.stored ≡ r.stored) ⊎ (r'.stored ≡ fs.left_behind))
Stored fs r d now (r', none) =
    Registered r d now r'
    × (((is_empty fs.data_dir ≡ true) × (r'.stored ≡ r.stored)) ⊎ (r'.stored ≡ some r'.by_id))

or_time-Filled : (t default : ℕ) → Filled t default (or_time t default)
unfolding or_time
or_time-Filled t default = elim (Bool-cases (t == 0)) [
  | inl zero ↦ inl (ground arith, rw zero refl)
  | inr some_time ↦ inr (λ e. ground arith, rw some_time refl)
]

put_device-Stored :
    (fs : Files) (r : Registry) (d : Device) (now : ℕ) (o : Option Device)
    → get d.device_id r.by_id ≡ o
    → Stored fs r d now (put_device fs r (stored_device d (first_time o now) now))
unfolding put_device get_device save_locked stored_device
put_device-Stored fs r d now o e =
    let d' = stored_device d (first_time o now) now in
    let r' : Registry = record r { by_id = put d.device_id d' r.by_id } in
    let registered : (m : Option (Map Device)) → Registered r d now (record r' { stored = m }) =
      λ m. record {
        first = d'.first_seen;
        last = d'.last_seen;
        found = get-put_self d.device_id d' r.by_id;
        first_filled =
            subst (λ v. Filled d.first_seen (first_time v now) d'.first_seen) (sym e)
              (or_time-Filled d.first_seen (first_time o now));
        last_filled = or_time-Filled d.last_seen now;
      } in
    elim (Bool-cases (is_empty fs.data_dir)) [
      | inl nowhere ↦ rw (nowhere, save_locked) (registered r.stored, inl (nowhere, refl))
      | inr somewhere ↦ elim (Bool-cases fs.mkdir_fails) [
        | inl refused ↦ rw (somewhere, refused, save_locked) (registered r.stored, inl refl)
        | inr made ↦ elim (Bool-cases fs.write_fails) [
          | inl failed ↦
              rw (somewhere, made, failed, save_locked) (registered fs.left_behind, inr refl)
          | inr written ↦
              rw (somewhere, made, written, save_locked) (registered (some r'.by_id), inr refl)
        ]
      ]
    ]

upsert-Stored :
    (fs : Files) (r : Registry) (d : Device) (max : ℤ) (now : ℕ) (o : Option Device)
    → get d.device_id r.by_id ≡ o
    → Stored fs r d now (upsert fs r d max now o)
unfolding upsert get_device
upsert-Stored fs r d max now (some prev) e = put_device-Stored fs r d now (some prev) e
upsert-Stored fs r d max now none e = elim (Bool-cases (is_l3_attester d.device_id)) [
  | inl attester ↦ rw attester (put_device-Stored fs r d now none e)
  | inr other ↦ elim (Bool-cases (reached max (non_attesters r.by_id))) [
    | inl full ↦ rw (other, full) (refl, e, other)
    | inr room ↦ rw (other, room) (put_device-Stored fs r d now none e)
  ]
]

-- An update that is refused because the registry is full leaves the registry as it was, and the
-- device is new and no L3 attester. On any other outcome the device is registered under its ID as it
-- was given, with the time of the old entry, or now, for a zero FirstSeen, and now for a zero LastSeen,
-- even when saving failed. Without an error the saved file holds all devices, unless there is no data
-- directory; with one it is the old file or what the failed write left.
pub upsert_with_limit-Stored :
    (fs : Files) (r : Registry) (d : Device) (max : ℤ) (now : ℕ)
    → Stored fs r d now (upsert_with_limit fs r d max now)
unfolding upsert_with_limit
upsert_with_limit-Stored fs r d max now =
    upsert-Stored fs r d (limit_of r max) now (get d.device_id r.by_id) refl
