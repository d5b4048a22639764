-- ===== src/Resources/Cache/Abandoned.antt =====
-- A file whose task ended between entering the file into the map and taking it out again.
use mathlib.Core.Path.{subst}
use servente.Common.{
  ap, ℕ, ◌≡◌, ◌≢◌, ◌∙◌, refl, arith, Bool, true, none, some, List, [], ◌∷◌, Bytes, bytes_eq,
  bytes_eq_iff, if◌then◌else◌,
}
use servente.Http.HeaderValue.{ContentCoding}
use servente.Resources.Compression.{ContentEncodedVersions}
use servente.Resources.Cache.{
  Cache, has_path, remove_entry, find_entry, insert_entry, stop_caching, remove_file_from_cache, Pc,
  started, claimed, stored, finished, holder, Move, denied, busy, claim, not_opened, not_measured,
  inappropriate, read_to_end, insert, not_inserted, stop, System, set_task, init, Step, spawn, run,
  remove_file, Reach, here, later,
}
use servente.Resources.Cache.Invariant.{
  has_path-remove_path, holder-set_task, busy_lem, claim_lem, Loses, IsExclusive, Reach-IsExclusive,
}

find_entry-remove_entry :
    (path p : Bytes) (entries : List (Bytes × ContentEncodedVersions))
    → find_entry path (remove_entry p entries)
      ≡ (if bytes_eq p path then none else find_entry path entries)
unfolding find_entry remove_entry
find_entry-remove_entry path p [] = ground arith
find_entry-remove_entry path p ((q, v) ∷ entries) = ground (
  arith,
  find_entry-remove_entry path p entries,
  bytes_eq_iff q p,
  bytes_eq_iff q path,
  bytes_eq_iff p path,
)

-- The file is in the map, no task will take it out, and the cache does not have it.
pub record IsAbandoned (path : Bytes) (c : Cache) (pc : ℕ → Pc) : Type 0 where
  pub entered : has_path path c.being_cached ≡ true
  pub no_holder : (i : ℕ) → holder (pc i) ≢ some path
  pub not_cached : find_entry path c.file_cache ≡ none

IsAbandoned-set_task :
    {path : Bytes} (c c' : Cache) (pc : ℕ → Pc) (i : ℕ) (p : Pc)
    → IsAbandoned path c pc
    → holder p ≢ some path
    → has_path path c'.being_cached ≡ true
    → find_entry path c'.file_cache ≡ none
    → IsAbandoned path c' (set_task pc i p)
IsAbandoned-set_task c c' pc i p h other entered not_cached = record {
  entered = entered;
  no_holder = λ j e. ground (arith, h.no_holder j, other, e, holder-set_task pc i j p);
  not_cached = not_cached;
}

-- A task that has gone on with no file, or with the file that it had.
IsAbandoned-keep :
    {path : Bytes} (c : Cache) (pc : ℕ → Pc) (i : ℕ) (p : Pc)
    → IsAbandoned path c pc
    → Loses (holder (pc i)) (holder p)
    → IsAbandoned path c (set_task pc i p)
IsAbandoned-keep {path} c pc i p h less =
    IsAbandoned-set_task c c pc i p h (λ e. h.no_holder i (less path e)) h.entered h.not_cached

some_inj : (p path : Bytes) → some p ≡ some path → p ≡ path
some_inj p path e = cc

-- A file that a task holds is another.
other :
    {path : Bytes} {c : Cache} {pc : ℕ → Pc} (i : ℕ) (p : Bytes)
    → IsAbandoned path c pc
    → holder (pc i) ≡ some p
    → p ≢ path
other i p h at e = h.no_holder i (at ∙ ap some e)

module _ (encode : ContentCoding → Bytes → Bytes) (convert_to_html : Bytes → Bytes)
    (has_convert_markdown : Bool) where
  Move-IsAbandoned :
      {path : Bytes} {c c' : Cache} {p : Pc} (pc : ℕ → Pc) (i : ℕ) (q : Pc)
      → IsAbandoned path c pc
      → pc i ≡ q
      → Move encode convert_to_html has_convert_markdown c q c' p
      → IsAbandoned path c' (set_task pc i p)
  unfolding insert_entry stop_caching has_path find_entry
  Move-IsAbandoned {path} {c} pc i q h at (denied d) =
      IsAbandoned-keep c pc i finished h (λ q e. cc)
  Move-IsAbandoned {path} {c} {c'} pc i q h at (busy {path = p} d e) =
      subst (λ (x : Cache). IsAbandoned path x (set_task pc i finished)) (busy_lem p c c' e)
        (IsAbandoned-keep c pc i finished h (λ q e. cc))
  Move-IsAbandoned {path} {c} {c'} pc i q h at (claim {path = p} d e0) =
      subst (λ (x : Cache). IsAbandoned path x (set_task pc i (claimed p))) (claim_lem p c c' e0).1
        (IsAbandoned-set_task c (record c { being_cached = p ∷ c.being_cached }) pc i (claimed p) h
          (λ e. ground (arith, some_inj p path e, (claim_lem p c c' e0).0, h.entered))
          (ground (arith, h.entered)) h.not_cached)
  Move-IsAbandoned {path} {c} pc i q h at not_opened =
      IsAbandoned-keep c pc i finished h (λ q e. cc)
  Move-IsAbandoned {path} {c} pc i q h at not_measured =
      IsAbandoned-keep c pc i finished h (λ q e. cc)
  Move-IsAbandoned {path} {c} pc i q h at (inappropriate metadata e) =
      IsAbandoned-keep c pc i finished h (λ q e. cc)
  Move-IsAbandoned {path} {c} pc i q h at (read_to_end metadata octets e) =
      IsAbandoned-keep c pc i _ h (λ q e. cc)
  Move-IsAbandoned {path} {c} {c'} pc i q h at (insert {path = p}) =
      IsAbandoned-set_task c c' pc i (stored p) h (λ e. h.no_holder i (ap holder at ∙ e)) h.entered
        (ground (
          arith,
          other i p h (ap holder at),
          find_entry-remove_entry path p c.file_cache,
          h.not_cached,
          bytes_eq_iff p path,
        ))
  Move-IsAbandoned {path} {c} pc i q h at (not_inserted {path = p}) =
      IsAbandoned-keep c pc i (stored p) h (λ q e. cc)
  Move-IsAbandoned {path} {c} {c'} pc i q h at (stop {path = p}) =
      IsAbandoned-set_task c c' pc i finished h (λ e. cc)
        (ground (
          arith,
          other i p h (ap holder at),
          has_path-remove_path path p c.being_cached,
          h.entered,
          bytes_eq_iff p path,
        ))
        h.not_cached

  Step-IsAbandoned :
      {path : Bytes} {s t : System}
      → Step encode convert_to_html has_convert_markdown s t
      → IsAbandoned path s.cache s.pc
      → IsAbandoned path t.cache t.pc
  unfolding remove_file_from_cache
  Step-IsAbandoned {path} {s} (spawn i p e) h =
      IsAbandoned-keep s.cache s.pc i (started p) h (λ q e'. cc)
  Step-IsAbandoned {path} {s} (run i mv) h = Move-IsAbandoned s.pc i (s.pc i) h refl mv
  Step-IsAbandoned {path} {s} {t} (remove_file p) h = record {
    entered = h.entered;
    no_holder = h.no_holder;
    not_cached = ground (arith, find_entry-remove_entry path p s.cache.file_cache, h.not_cached);
  }

  Reach-IsAbandoned :
      {path : Bytes} {s t : System}
      → Reach encode convert_to_html has_convert_markdown s t
      → IsAbandoned path s.cache s.pc
      → IsAbandoned path t.cache t.pc
  Reach-IsAbandoned here h = h
  Reach-IsAbandoned (later r st) h = Step-IsAbandoned st (Reach-IsAbandoned r h)

  -- A task that ends in front of the reading of its file, because this does not open, has no metadata or is not
  -- to be cached, leaves the file in the map: if the file is not in the cache then, it never is again, whatever
  -- steps follow.
  pub Reach-abandoned :
      {s t : System} (i : ℕ) (path : Bytes)
      → Reach encode convert_to_html has_convert_markdown init s
      → s.pc i ≡ claimed path
      → find_entry path s.cache.file_cache ≡ none
      → Reach encode convert_to_html has_convert_markdown
          (record s { pc = set_task s.pc i finished })
          t
      → find_entry path t.cache.file_cache ≡ none
  Reach-abandoned {s} i path r at absent r' =
      (Reach-IsAbandoned {path = path} r' (record {
        entered = inv.held i path own;
        no_holder =
            λ j e. ground (arith, holder-set_task s.pc i j finished, inv.unique i j path, own, e);
        not_cached = absent;
      })).not_cached
    where
      inv : IsExclusive s.cache s.pc
      inv = Reach-IsExclusive encode convert_to_html has_convert_markdown r

      own : holder (s.pc i) ≡ some path
      own = ap holder at
