-- ===== src/Metadata/Store/Valid.antt =====
-- The statements that write rows, and the table's constraints.
use warpbox.Base.{
  ℕ, zero, suc, ◌+◌, ◌≤◌, ◌≡◌, refl, Bool, false, Option, none, some, List, [], ◌∷◌, arith, ◌==◌,
  any, Bool-cases, Option-cases, inl, inr, ◌∙◌,
}
use warpbox.Base.Int.{ℤ, pos, lt_int}
use warpbox.Base.Text.{Text}
use warpbox.Base.Result.{Result}
use warpbox.Metadata.Record.{FileSource, FileRecord}
use warpbox.Metadata.Store.{
  Store, same_key, is_stale, count_lock, is_locked_error, update_id, set_cdn_attempts, set_cdn_url,
  set_file_size, delete_first, batch_size, prune_loop, prune_by_sync_tag, get_next_sync_tag,
  upsert_file,
}
use warpbox.Metadata.Store.Upsert.{IsValid, Unique, Increasing, same_key_sym, upsert_file_stores}

-- An update that leaves the id and the natural key of a row alone.
abbrev KeepsKey : (FileRecord → FileRecord) → Type 0
KeepsKey f =
    (row : FileRecord)
    → ((f row).id ≡ row.id) × ((k : FileRecord) → same_key k (f row) ≡ same_key k row)

any-update_id :
    (id : ℕ) (f : FileRecord → FileRecord) (k : FileRecord) (rows : List FileRecord)
    → KeepsKey f
    → any (same_key k) (update_id id f rows) ≡ any (same_key k) rows
unfolding any update_id
any-update_id id f k [] h = refl
any-update_id id f k (row ∷ rows) h = ground (arith, any-update_id id f k rows h, (h row).1 k)

pub any_same :
    (a b : FileRecord) (rows : List FileRecord)
    → ((k : FileRecord) → same_key a k ≡ same_key b k)
    → any (same_key a) rows ≡ any (same_key b) rows
unfolding any
any_same a b [] h = refl
any_same a b (row ∷ rows) h = ground (arith, any_same a b rows h, h row)

Unique-update_id :
    (id : ℕ) (f : FileRecord → FileRecord) (rows : List FileRecord)
    → KeepsKey f
    → Unique rows
    → Unique (update_id id f rows)
unfolding update_id
Unique-update_id id f [] h u = tt
Unique-update_id id f (row ∷ rows) h u =
    let flip = λ (k : FileRecord). same_key_sym (f row) k ∙ (h row).1 k ∙ same_key_sym k row in
    (
      elim (Bool-cases (row.id == id)) [
        | inl hit ↦
            rw hit (any-update_id id f (f row) rows h ∙ any_same (f row) row rows flip ∙ u.0)
        | inr miss ↦ rw miss (any-update_id id f row rows h ∙ u.0)
      ],
      Unique-update_id id f rows h u.1,
    )

Increasing-update_id :
    (id lo hi : ℕ) (f : FileRecord → FileRecord) (rows : List FileRecord)
    → KeepsKey f
    → Increasing lo rows hi
    → Increasing lo (update_id id f rows) hi
unfolding update_id
Increasing-update_id id lo hi f [] h u = u
Increasing-update_id id lo hi f (row ∷ rows) h u =
    ground (arith, Increasing-update_id id row.id hi f rows h, (h row).0)

update_id-IsValid :
    (id : ℕ) (f : FileRecord → FileRecord) (s : Store)
    → KeepsKey f
    → IsValid s
    → IsValid (record s { files = update_id id f s.files })
update_id-IsValid id f s h v = record {
  unique = Unique-update_id id f s.files h v.unique;
  ids = Increasing-update_id id 0 s.last_id f s.files h v.ids;
}

count_lock-IsValid : (e : Option Text) (s : Store) → IsValid s → IsValid (count_lock e s)
count_lock-IsValid e s v = elim (Bool-cases (is_locked_error e)) [
  | inl locked ↦ rw locked (record { unique = v.unique; ids = v.ids })
  | inr other ↦ rw other v
]

set_cdn_attempts-IsValid :
    (left attempt : ℕ) (errors : ℕ → Option Text) (id : ℕ) (url expires : Text) (s : Store)
    → IsValid s
    → IsValid (set_cdn_attempts left attempt errors id url expires s).1
unfolding set_cdn_attempts
set_cdn_attempts-IsValid zero attempt errors id url expires s v = v
set_cdn_attempts-IsValid (suc zero) attempt errors id url expires s v =
    elim (Option-cases (errors attempt)) [
      | inl fine ↦
          rw (fine, set_cdn_attempts)
            (update_id-IsValid id _ s (λ row. unfold same_key in (refl, λ k. refl)) v)
      | inr (e, failed) ↦ rw (failed, set_cdn_attempts) (count_lock-IsValid (some e) s v)
    ]
set_cdn_attempts-IsValid (suc (suc left)) attempt errors id url expires s v =
    elim (Option-cases (errors attempt)) [
      | inl fine ↦
          rw (fine, set_cdn_attempts)
            (update_id-IsValid id _ s (λ row. unfold same_key in (refl, λ k. refl)) v)
      | inr (e, failed) ↦
          rw (failed, set_cdn_attempts)
            (set_cdn_attempts-IsValid (suc left) (suc attempt) errors id url expires _
              (count_lock-IsValid (some e) s v))
    ]

Increasing-weaken :
    (lo lo' hi : ℕ) (rows : List FileRecord)
    → lo ≤ lo'
    → Increasing lo' rows hi
    → Increasing lo rows hi
Increasing-weaken lo lo' hi [] le u = omega arith
Increasing-weaken lo lo' hi (row ∷ rows) le u = (omega arith, u.1)

module _ (p : FileRecord → Bool) where
  any-delete_first :
      (n : ℕ) (k : FileRecord) (rows : List FileRecord)
      → any (same_key k) rows ≡ false
      → any (same_key k) (delete_first p n rows).0 ≡ false
  unfolding any delete_first
  any-delete_first zero k rows h = h
  any-delete_first (suc n) k [] h = h
  any-delete_first (suc n) k (row ∷ rows) h =
      ground (arith, any-delete_first n k rows, any-delete_first (suc n) k rows)

  Unique-delete_first :
      (n : ℕ) (rows : List FileRecord) → Unique rows → Unique (delete_first p n rows).0
  unfolding delete_first
  Unique-delete_first zero rows u = u
  Unique-delete_first (suc n) [] u = u
  Unique-delete_first (suc n) (row ∷ rows) u = ground (
    arith,
    any-delete_first (suc n) row rows,
    Unique-delete_first n rows,
    Unique-delete_first (suc n) rows,
  )

  Increasing-delete_first :
      (n lo hi : ℕ) (rows : List FileRecord)
      → Increasing lo rows hi
      → Increasing lo (delete_first p n rows).0 hi
  unfolding delete_first
  Increasing-delete_first zero lo hi rows u = u
  Increasing-delete_first (suc n) lo hi [] u = u
  Increasing-delete_first (suc n) lo hi (row ∷ rows) u = elim (Bool-cases (p row)) [
    | inl hit ↦
        rw (hit, delete_first)
          (Increasing-weaken lo row.id hi _ (omega arith)
            (Increasing-delete_first n row.id hi rows u.1))
    | inr miss ↦ rw (miss, delete_first) (u.0, Increasing-delete_first (suc n) row.id hi rows u.1)
  ]

  prune_loop-IsValid :
      (errors : ℕ → Option Text) (fuel batch total : ℕ) (s s' : Store) (r : Result ℕ)
      → IsValid s
      → prune_loop fuel batch errors p total s ≡ some (r, s')
      → IsValid s'
  unfolding prune_loop
  prune_loop-IsValid errors zero batch total s s' r v h = cc
  prune_loop-IsValid errors (suc fuel) batch total s s' r v h =
      let (rows, n) = delete_first p batch_size s.files in
      let rest : IsValid (record s { files = rows }) = record {
        unique = Unique-delete_first batch_size s.files v.unique;
        ids = Increasing-delete_first batch_size 0 s.last_id s.files v.ids;
      } in
      elim (Option-cases (errors batch)) [
        | inr (e, failed) ↦
            let same : count_lock (some e) s ≡ s' = cc (rw (failed, prune_loop) at h) in
            rw (← same) (count_lock-IsValid (some e) s v)
        | inl fine ↦ elim (Bool-cases (n == 0)) [
          | inl done ↦
              let same : record s { files = rows } ≡ s' =
                cc (rw done at (rw (fine, prune_loop) at h)) in
              rw (← same) rest
          | inr more ↦
              prune_loop-IsValid errors fuel (suc batch) (total + n) (record s { files = rows }) s'
                r rest (rw more at (rw (fine, prune_loop) at h))
        ]
      ]

upsert-IsValid :
    (e : Option Text) (f : FileRecord) (s : Store) → IsValid s → IsValid (upsert_file e f s).1
upsert-IsValid none f s v = (upsert_file_stores f f s v).1
upsert-IsValid (some e) f s v = unfold upsert_file in count_lock-IsValid (some e) s v

size-IsValid :
    (e : Option Text) (id : ℕ) (size : ℤ) (s : Store)
    → IsValid s
    → IsValid (set_file_size e id size s).1
unfolding set_file_size
size-IsValid (some e) id size s v = v
size-IsValid none id size s v =
    update_id-IsValid id _ s (λ row. unfold same_key in (refl, λ k. refl)) v

tag-IsValid : (e : Option Text) (s : Store) → IsValid s → IsValid (get_next_sync_tag e s).1
unfolding get_next_sync_tag
tag-IsValid (some e) s v = v
tag-IsValid none s v = record { unique = v.unique; ids = v.ids }

prune-IsValid :
    (fuel : ℕ) (errors : ℕ → Option Text) (tag : ℤ) (source : FileSource) (s s' : Store)
    (r : Result ℕ)
    → IsValid s
    → prune_by_sync_tag fuel errors tag source s ≡ some (r, s')
    → IsValid s'
unfolding prune_by_sync_tag
prune-IsValid fuel errors tag source s s' r v h = elim (Bool-cases (lt_int (pos 0) tag)) [
  | inl positive ↦
      prune_loop-IsValid (is_stale tag source) errors fuel 0 0 s s' r v (rw positive at h)
  | inr refused ↦ let same : s ≡ s' = cc (rw refused at h) in rw (← same) v
]

-- The store that a prune leaves, if it ends.
abbrev pub IsValidAfter : Option (Result ℕ × Store) → Type 0
IsValidAfter none = Unit
IsValidAfter (some (r, s')) = IsValid s'

prune_valid :
    (o : Option (Result ℕ × Store))
    → ((r : Result ℕ) (s' : Store) → o ≡ some (r, s') → IsValid s')
    → IsValidAfter o
prune_valid none h = tt
prune_valid (some (r, s')) h = h r s' refl

-- Every statement that writes rows keeps natural keys unique and ids increasing, whatever errors the
-- driver gives: the upsert, the cached URL, the size, the sync tag and the prune.
pub writes_keep-IsValid :
    (s : Store)
    → IsValid s
    → ((e : Option Text) (f : FileRecord) → IsValid (upsert_file e f s).1)
      × ((errors : ℕ → Option Text) (id : ℕ) (url expires : Text)
          → IsValid (set_cdn_url errors id url expires s).1)
      × ((e : Option Text) (id : ℕ) (size : ℤ) → IsValid (set_file_size e id size s).1)
      × ((e : Option Text) → IsValid (get_next_sync_tag e s).1)
      × ((fuel : ℕ) (errors : ℕ → Option Text) (tag : ℤ) (source : FileSource)
          → IsValidAfter (prune_by_sync_tag fuel errors tag source s))
unfolding set_cdn_url
writes_keep-IsValid s v = (
  λ e f. upsert-IsValid e f s v,
  λ errors id url expires. set_cdn_attempts-IsValid 3 0 errors id url expires s v,
  λ e id size. size-IsValid e id size s v,
  λ e. tag-IsValid e s v,
  λ fuel errors tag source.
      prune_valid _ (λ r s' h. prune-IsValid fuel errors tag source s s' r v h),
)
