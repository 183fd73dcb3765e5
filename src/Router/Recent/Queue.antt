-- ===== src/Router/Recent/Queue.antt =====
-- `RecentBuffer` refines a bounded queue of hashes, oldest first.
pub mod Refines
use ratnet.Prelude.{
  ℕ, zero, suc, ◌+◌, ◌-◌, ◌<◌, ◌≤◌, ◌≡◌, refl, sym, ap, ◌∙◌, Bool, true, false, Option, none, some,
  List, [], ◌∷◌, ◌++◌, length, length-append, drop, leb, ltb, ◌==◌, if◌then◌else◌, Bytes, Map,
  lookup, insert, delete, nat_eq, arith, insert_new, delete_absent, lookup-insert, append_assoc,
}
use ratnet.Router.Crc.{checksum_ieee}
use ratnet.Router.Recent.{
  RecentBuffer, new_recent_buffer, values, sort, place, or_zero, delete_entry, delete_entries,
  collect, next_counter, record_hash, seen_hash, seen_recently, cache_size, cache_discount,
  max_int32,
}

-- The specification: a hash that is not there is put at the back, and a full queue loses its
-- oldest quarter.
unfoldable pub holds : ℕ → List ℕ → Bool
holds h [] = false
holds h (x ∷ q) = if x == h then true else holds h q

unfoldable pub trim : List ℕ → List ℕ
trim q = if ltb (length q) cache_size then q else drop cache_discount q

unfoldable pub observe : ℕ → List ℕ → Bool × List ℕ
unfolding holds trim
observe h q = if holds h q then (true, q) else (false, trim (q ++ h ∷ []))

-- The hashes of a buffer.
abbrev pub hashes : Map ℕ ℕ → List ℕ
hashes [] = []
hashes ((h, c) ∷ m) = h ∷ hashes m

abbrev mirror : Map ℕ ℕ → Map ℕ ℕ
mirror [] = []
mirror ((h, c) ∷ m) = (c, h) ∷ mirror m

-- The counters from `lo` on rise and stay below `hi`, and no hash stands twice.
abbrev Rises : ℕ → ℕ → Map ℕ ℕ → Type 0
Rises lo hi [] = lo ≤ hi
Rises lo hi ((h, c) ∷ m) = (lo ≤ c) × Rises (suc c) hi m

abbrev IsDistinct : Map ℕ ℕ → Type 0
IsDistinct [] = Unit
IsDistinct ((h, c) ∷ m) = (lookup h m ≡ none) × IsDistinct m

-- The two maps of the buffer are each other's mirror, in the order of insertion.
pub record IsQueue (r : RecentBuffer) : Type 0 where
  pub mirrored : r.reverse ≡ mirror r.recent
  pub rises : Rises 0 r.counter r.recent
  pub distinct : IsDistinct r.recent
  pub short : length r.recent < cache_size

pub new_recent_buffer-IsQueue : IsQueue new_recent_buffer
unfolding new_recent_buffer
new_recent_buffer-IsQueue = record {
  mirrored = refl;
  rises = omega arith;
  distinct = tt;
  short = omega arith;
}

-- The values are sorted as they stand.
Rises-values : (lo hi : ℕ) (m : Map ℕ ℕ) → Rises lo hi m → sort (values m) ≡ values m
unfolding sort values
Rises-values lo hi [] h = refl
Rises-values lo hi ((x, c) ∷ []) h = refl
Rises-values lo hi ((x, c) ∷ (y, d) ∷ m) (hc, hm) =
    rw (Rises-values (suc c) hi ((y, d) ∷ m) hm) (ground arith)

Rises-weaken : (lo lo' hi : ℕ) (m : Map ℕ ℕ) → lo' ≤ lo → Rises lo hi m → Rises lo' hi m
Rises-weaken lo lo' hi [] e h = omega arith
Rises-weaken lo lo' hi ((x, c) ∷ m) e (h, hm) = (omega arith, hm)

Rises-le : (lo hi : ℕ) (m : Map ℕ ℕ) → Rises lo hi m → lo ≤ hi
Rises-le lo hi [] h = h
Rises-le lo hi ((x, c) ∷ m) (hc, hm) = omega (arith, Rises-le (suc c) hi m hm)

-- A counter below all others is no key of the mirror.
Rises-lookup : (c lo hi : ℕ) (m : Map ℕ ℕ) → c < lo → Rises lo hi m → lookup c (mirror m) ≡ none
unfolding lookup
Rises-lookup c lo hi [] e h = refl
Rises-lookup c lo hi ((x, d) ∷ m) e (h, hm) =
    ground (arith, Rises-lookup c (suc d) hi m (omega arith) hm)

delete_entry_oldest :
    (x c k : ℕ) (m : Map ℕ ℕ)
    → lookup c (mirror m) ≡ none
    → lookup x m ≡ none
    → delete_entry c (record { recent = (x, c) ∷ m; reverse = (c, x) ∷ mirror m; counter = k })
      ≡ record { recent = m; reverse = mirror m; counter = k }
unfolding delete_entry or_zero lookup delete
delete_entry_oldest x c k m hc hx = ground (arith, delete_absent c (mirror m), delete_absent x m)

-- Deleting the `n` smallest values drops the `n` oldest entries.
delete_entries-drop :
    (n lo hi k : ℕ) (m : Map ℕ ℕ)
    → Rises lo hi m
    → IsDistinct m
    → delete_entries n (values m) (record { recent = m; reverse = mirror m; counter = k })
      ≡ record { recent = drop n m; reverse = mirror (drop n m); counter = k }
unfolding delete_entries values
delete_entries-drop zero lo hi k m h d = refl
delete_entries-drop (suc n) lo hi k [] h d = refl
delete_entries-drop (suc n) lo hi k ((x, c) ∷ m) (hc, hm) (dx, dm) =
    rw (delete_entry_oldest x c k m (Rises-lookup c (suc c) hi m (omega arith) hm) dx)
      (delete_entries-drop n (suc c) hi k m hm dm)

-- Parts of the invariant under an insertion and under a loss of the oldest.
Rises-append : (lo c h : ℕ) (m : Map ℕ ℕ) → Rises lo c m → Rises lo (c + 1) (m ++ (h, c) ∷ [])
Rises-append lo c h [] r = omega arith
Rises-append lo c h ((x, d) ∷ m) (rd, rm) = (rd, Rises-append (suc d) c h m rm)

Rises-drop : (n lo hi : ℕ) (m : Map ℕ ℕ) → Rises lo hi m → Rises lo hi (drop n m)
Rises-drop zero lo hi m r = r
Rises-drop (suc n) lo hi [] r = r
Rises-drop (suc n) lo hi ((x, d) ∷ m) (rd, rm) =
    Rises-weaken (suc d) lo hi (drop n m) (omega arith) (Rises-drop n (suc d) hi m rm)

lookup-append_none :
    (j h c : ℕ) (m : Map ℕ ℕ)
    → lookup j m ≡ none
    → (j == h) ≡ false
    → lookup j (m ++ (h, c) ∷ []) ≡ none
unfolding lookup
lookup-append_none j h c [] e ne = ground arith
lookup-append_none j h c ((x, d) ∷ m) e ne = ground (arith, lookup-append_none j h c m)

IsDistinct-append :
    (h c : ℕ) (m : Map ℕ ℕ) → lookup h m ≡ none → IsDistinct m → IsDistinct (m ++ (h, c) ∷ [])
unfolding lookup
IsDistinct-append h c [] e d = (refl, tt)
IsDistinct-append h c ((x, k) ∷ m) e (dx, dm) =
    (lookup-append_none x h c m dx (ground arith), IsDistinct-append h c m (ground arith) dm)

IsDistinct-drop : (n : ℕ) (m : Map ℕ ℕ) → IsDistinct m → IsDistinct (drop n m)
IsDistinct-drop zero m d = d
IsDistinct-drop (suc n) [] d = d
IsDistinct-drop (suc n) ((x, c) ∷ m) (dx, dm) = IsDistinct-drop n m dm

mirror-append : (h c : ℕ) (m : Map ℕ ℕ) → mirror (m ++ (h, c) ∷ []) ≡ mirror m ++ (c, h) ∷ []
mirror-append h c [] = refl
mirror-append h c ((x, d) ∷ m) = rw (mirror-append h c m)

Rises-lookup_top : (lo hi : ℕ) (m : Map ℕ ℕ) → Rises lo hi m → lookup hi (mirror m) ≡ none
unfolding lookup
Rises-lookup_top lo hi [] r = refl
Rises-lookup_top lo hi ((x, d) ∷ m) (rd, rm) =
    ground (arith, Rises-lookup_top (suc d) hi m rm, Rises-le (suc d) hi m rm)

hashes-append : (h c : ℕ) (m : Map ℕ ℕ) → hashes (m ++ (h, c) ∷ []) ≡ hashes m ++ h ∷ []
hashes-append h c [] = refl
hashes-append h c ((x, d) ∷ m) = rw (hashes-append h c m)

hashes-drop : (n : ℕ) (m : Map ℕ ℕ) → hashes (drop n m) ≡ drop n (hashes m)
hashes-drop zero m = refl
hashes-drop (suc n) [] = refl
hashes-drop (suc n) ((x, d) ∷ m) = hashes-drop n m

pub length-hashes : (m : Map ℕ ℕ) → length (hashes m) ≡ length m
length-hashes [] = refl
length-hashes ((x, d) ∷ m) = ap suc (length-hashes m)

holds-lookup : (h : ℕ) (m : Map ℕ ℕ) → lookup h m ≡ none → holds h (hashes m) ≡ false
unfolding lookup holds
holds-lookup h [] e = refl
holds-lookup h ((x, d) ∷ m) e = ground (arith, holds-lookup h m)

holds-lookup-some : (h c : ℕ) (m : Map ℕ ℕ) → lookup h m ≡ some c → holds h (hashes m) ≡ true
unfolding lookup holds
holds-lookup-some h c [] e = cc
holds-lookup-some h c ((x, d) ∷ m) e = ground (arith, holds-lookup-some h c m)
