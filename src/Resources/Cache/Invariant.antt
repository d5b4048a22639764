-- ===== src/Resources/Cache/Invariant.antt =====
-- What holds of the cache and its tasks in every order of their steps.
use mathlib.Core.Path.{subst}
use servente.Common.{
  ap, ℕ, ◌≡◌, ◌≢◌, ◌⊎◌, refl, arith, ◌==◌, Bool, true, false, Option, some, List, [], ◌∷◌, Bytes,
  bytes_eq, bytes_eq_iff, if◌then◌else◌, Bool-cases, inl, inr, All,
}
use servente.Http.HeaderValue.{ContentCoding}
use servente.Resources.Compression.{ContentEncodedVersions}
use servente.Resources.Cache.{
  Cache, has_path, remove_path, remove_entry, is_file_being_cached, insert_entry, stop_caching,
  remove_file_from_cache, Pc, started, claimed, stored, finished, holder, Move, denied, busy, claim,
  not_opened, not_measured, inappropriate, read_to_end, insert, not_inserted, stop, System,
  set_task, init, Step, spawn, run, remove_file, Reach, here, later,
}
use servente.Resources.Exclude.{is_file_allowed_to_be_served}

pub has_path-remove_path :
    (path p : Bytes) (paths : List Bytes)
    → has_path path (remove_path p paths) ≡ (if bytes_eq p path then false else has_path path paths)
unfolding has_path remove_path
has_path-remove_path path p [] = ground arith
has_path-remove_path path p (q ∷ paths) = ground (
  arith,
  has_path-remove_path path p paths,
  bytes_eq_iff q p,
  bytes_eq_iff q path,
  bytes_eq_iff p path,
)

-- Each path in the cache may be served.
abbrev pub AllAllowed : List (Bytes × ContentEncodedVersions) → Type 0
AllAllowed entries =
    All (λ (entry : Bytes × ContentEncodedVersions). is_file_allowed_to_be_served entry.0 ≡ true)
      entries

AllAllowed-remove_entry :
    (path : Bytes) (entries : List (Bytes × ContentEncodedVersions))
    → AllAllowed entries
    → AllAllowed (remove_entry path entries)
unfolding remove_entry
AllAllowed-remove_entry path [] h = tt
AllAllowed-remove_entry path ((p, v) ∷ entries) h = elim (Bool-cases (bytes_eq p path)) [
  | inl e ↦ rw e (AllAllowed-remove_entry path entries h.1)
  | inr e ↦ rw e (h.0, AllAllowed-remove_entry path entries h.1)
]

-- A file that a task has entered is in the map, no other task has entered it, and it may be served.
pub record IsExclusive (c : Cache) (pc : ℕ → Pc) : Type 0 where
  pub held :
      (i : ℕ) (path : Bytes) → holder (pc i) ≡ some path → has_path path c.being_cached ≡ true
  pub unique :
      (i j : ℕ) (path : Bytes) → holder (pc i) ≡ some path → holder (pc j) ≡ some path → i ≡ j
  pub allowed :
      (i : ℕ) (path : Bytes) → holder (pc i) ≡ some path → is_file_allowed_to_be_served path ≡ true
  pub all_allowed : AllAllowed c.file_cache

-- A task that goes on to a point without a file, or with the file that it has.
abbrev pub Loses : Option Bytes → Option Bytes → Type 0
Loses old new = (path : Bytes) → new ≡ some path → old ≡ some path

abbrev pub Weaker : Cache → Cache → Type 0
Weaker c c' =
    (path : Bytes) → has_path path c.being_cached ≡ true → has_path path c'.being_cached ≡ true

pub holder-set_task :
    (pc : ℕ → Pc) (i j : ℕ) (p : Pc)
    → holder (set_task pc i p j) ≡ (if i == j then holder p else holder (pc j))
holder-set_task pc i j p = ground arith

pub IsExclusive-keep :
    (c c' : Cache) (pc : ℕ → Pc) (i : ℕ) (p : Pc)
    → IsExclusive c pc
    → Weaker c c'
    → AllAllowed c'.file_cache
    → Loses (holder (pc i)) (holder p)
    → IsExclusive c' (set_task pc i p)
IsExclusive-keep c c' pc i p inv weaker all less = record {
  held = λ j path e. weaker path (inv.held j path (old j path e));
  unique = λ j k path e e'. inv.unique j k path (old j path e) (old k path e');
  allowed = λ j path e. inv.allowed j path (old j path e);
  all_allowed = all;
}
  where
    old :
        (j : ℕ) (path : Bytes) → holder (set_task pc i p j) ≡ some path → holder (pc j) ≡ some path
    old j path e = ground (arith, less path, holder-set_task pc i j p)

-- The task that enters a file holds it, and the others did not.
IsExclusive-claim :
    (c : Cache) (pc : ℕ → Pc) (i : ℕ) (path : Bytes)
    → IsExclusive c pc
    → has_path path c.being_cached ≡ false
    → is_file_allowed_to_be_served path ≡ true
    → IsExclusive (record c { being_cached = path ∷ c.being_cached }) (set_task pc i (claimed path))
unfolding has_path
IsExclusive-claim c pc i path inv free may = record {
  held = λ j q e. ground (arith, cases j q e, inv.held j q, bytes_eq_iff path q);
  unique = λ j k q e e'.
      ground (arith, cases j q e, cases k q e', inv.unique j k q, inv.held j q, inv.held k q);
  allowed = λ j q e. ground (arith, cases j q e, inv.allowed j q);
  all_allowed = inv.all_allowed;
}
  where
    cases :
        (j : ℕ) (q : Bytes)
        → holder (set_task pc i (claimed path) j) ≡ some q
        → ((i ≡ j) × (path ≡ q)) ⊎ (holder (pc j) ≡ some q)
    cases j q e = ground (arith, holder-set_task pc i j (claimed path))

-- The task that takes a file out of the map holds it no more, and no other task has held it.
IsExclusive-stop :
    (c : Cache) (pc : ℕ → Pc) (i : ℕ) (path : Bytes)
    → IsExclusive c pc
    → holder (pc i) ≡ some path
    → IsExclusive (stop_caching path c) (set_task pc i finished)
unfolding stop_caching
IsExclusive-stop c pc i path inv own = record {
  held = λ j q e. ground (
    arith,
    old j q e,
    inv.held j q,
    inv.unique i j q,
    own,
    has_path-remove_path q path c.being_cached,
    bytes_eq_iff path q,
  );
  unique = λ j k q e e'. ground (arith, old j q e, old k q e', inv.unique j k q);
  allowed = λ j q e. ground (arith, old j q e, inv.allowed j q);
  all_allowed = inv.all_allowed;
}
  where
    old :
        (j : ℕ) (q : Bytes)
        → holder (set_task pc i finished j) ≡ some q
        → (i ≢ j) × (holder (pc j) ≡ some q)
    old j q e = ground (arith, holder-set_task pc i j finished)

IsExclusive-finish :
    (c : Cache) (pc : ℕ → Pc) (i : ℕ) → IsExclusive c pc → IsExclusive c (set_task pc i finished)
IsExclusive-finish c pc i inv =
    IsExclusive-keep c c pc i finished inv (λ path e. e) inv.all_allowed (λ path e. cc)

pub busy_lem : (path : Bytes) (c c' : Cache) → is_file_being_cached path c ≡ (true, c') → c ≡ c'
unfolding is_file_being_cached
busy_lem path c c' e = ground arith

pub claim_lem :
    (path : Bytes) (c c' : Cache)
    → is_file_being_cached path c ≡ (false, c')
    → (has_path path c.being_cached ≡ false)
      × (record c { being_cached = path ∷ c.being_cached } ≡ c')
unfolding is_file_being_cached
claim_lem path c c' e = ground arith

module _ (encode : ContentCoding → Bytes → Bytes) (convert_to_html : Bytes → Bytes)
    (has_convert_markdown : Bool) where
  pub Move-IsExclusive :
      {c c' : Cache} {p : Pc} (pc : ℕ → Pc) (i : ℕ) (q : Pc)
      → IsExclusive c pc
      → pc i ≡ q
      → Move encode convert_to_html has_convert_markdown c q c' p
      → IsExclusive c' (set_task pc i p)
  unfolding insert_entry
  Move-IsExclusive {c} pc i q inv at (denied d) = IsExclusive-finish c pc i inv
  Move-IsExclusive {c} {c'} pc i q inv at (busy {path} d e) =
      subst (λ (x : Cache). IsExclusive x (set_task pc i finished)) (busy_lem path c c' e)
        (IsExclusive-finish c pc i inv)
  Move-IsExclusive {c} {c'} pc i q inv at (claim {path} d e) =
      subst (λ (x : Cache). IsExclusive x (set_task pc i (claimed path))) (claim_lem path c c' e).1
        (IsExclusive-claim c pc i path inv (claim_lem path c c' e).0 d)
  Move-IsExclusive {c} pc i q inv at not_opened = IsExclusive-finish c pc i inv
  Move-IsExclusive {c} pc i q inv at not_measured = IsExclusive-finish c pc i inv
  Move-IsExclusive {c} pc i q inv at (inappropriate metadata e) = IsExclusive-finish c pc i inv
  Move-IsExclusive {c} pc i q inv at (read_to_end {path} metadata octets e) =
      IsExclusive-keep c c pc i _ inv (λ path e. e) inv.all_allowed (λ path' e'. cc)
  Move-IsExclusive {c} {c'} pc i q inv at (insert {path}) =
      IsExclusive-keep c c' pc i (stored path) inv (λ path' e. e)
        (
          inv.allowed i path (ap holder at),
          AllAllowed-remove_entry path c.file_cache inv.all_allowed,
        )
        (λ path' e'. cc)
  Move-IsExclusive {c} pc i q inv at (not_inserted {path}) =
      IsExclusive-keep c c pc i (stored path) inv (λ path' e. e) inv.all_allowed (λ path' e'. cc)
  Move-IsExclusive {c} pc i q inv at (stop {path}) = IsExclusive-stop c pc i path inv (ap holder at)

  pub Step-IsExclusive :
      {s t : System}
      → Step encode convert_to_html has_convert_markdown s t
      → IsExclusive s.cache s.pc
      → IsExclusive t.cache t.pc
  unfolding remove_file_from_cache
  Step-IsExclusive {s} (spawn i path e) inv =
      IsExclusive-keep s.cache s.cache s.pc i (started path) inv (λ path' e'. e') inv.all_allowed
        (λ path' e'. cc)
  Step-IsExclusive {s} (run i mv) inv = Move-IsExclusive s.pc i (s.pc i) inv refl mv
  Step-IsExclusive {s} {t} (remove_file path) inv = record {
    held = inv.held;
    unique = inv.unique;
    allowed = inv.allowed;
    all_allowed = AllAllowed-remove_entry path s.cache.file_cache inv.all_allowed;
  }

  pub IsExclusive-init : IsExclusive init.cache init.pc
  IsExclusive-init = record {
    held = λ i path e. cc;
    unique = λ i j path e e'. cc;
    allowed = λ i path e. cc;
    all_allowed = tt;
  }

  -- In every order of the steps of the tasks and of removals, no two tasks have entered the same file; what a
  -- task has entered is in the map and may be served; and all the files in the cache may be served.
  pub Reach-IsExclusive :
      {s : System}
      → Reach encode convert_to_html has_convert_markdown init s
      → IsExclusive s.cache s.pc
  Reach-IsExclusive here = IsExclusive-init
  Reach-IsExclusive (later r st) = Step-IsExclusive st (Reach-IsExclusive r)
