-- ===== src/Files/Pick.antt =====
-- What `Pickup` of the node in files collects.
use ratnet.Prelude.{
  ℕ, ◌+◌, ◌*◌, ◌^◌, ◌<◌, ◌≤◌, ◌≡◌, refl, sym, ap, ◌∙◌, true, false, ◌&&◌, Bool-cases, inl, inr,
  none, some, Option-cases, List, [], ◌∷◌, ◌++◌, append-nil, length, ltb, lt→ltb, le→ltb, ◌==◌,
  if◌then◌else◌, Bytes, Map, All, arith,
}
use ratnet.Go.{Failure, returned, failed, panicked}
use ratnet.Api.{OutboxMsg}
use ratnet.Hex.{hex_digits, hex_number}
use ratnet.Hex.ReadsBack.{hex_number-hex_digits}
use ratnet.Files.{File, hex64, in_int64, file_time, with_time, pick_loop, pick}

-- The name of a message's file is its time.
pub file_time-hex64 : (n : ℕ) → n < 2 ^ 63 → file_time (hex64 n) ≡ some n
unfolding file_time hex64 hex_digits hex_number in_int64
file_time-hex64 n h =
    let zero_first : 16 ^ 16 * 0 + n ≡ n = omega arith in
    let whole : hex_number 0 (hex_digits 16 n) ≡ some n =
      ap (hex_number 0) (sym (append-nil (hex_digits 16 n)))
      ∙ hex_number-hex_digits 16 n 0 [] (omega arith)
      ∙ ap some zero_first in
    ap in_int64 whole ∙ rw (lt→ltb n (2 ^ 63) h)

-- The files of messages, in their order.
abbrev pub as_files : List OutboxMsg → Map Bytes File
as_files [] = []
as_files (m ∷ ms) =
    (hex64 m.time_stamp, record { content = m.msg; modified = m.time_stamp }) ∷ as_files ms

abbrev pub InTime : OutboxMsg → Type 0
InTime m = m.time_stamp < 2 ^ 63

pick_loop-cons :
    (max_bytes : ℕ) (msgs : List Bytes) (t read time : ℕ) (name : Bytes) (f : File)
    (rest : Map Bytes File)
    → file_time name ≡ some time
    → (ltb 0 max_bytes && ltb max_bytes (length f.content + read)) ≡ false
    → pick_loop max_bytes msgs t read ((name, f) ∷ rest) ≡ (
        if ltb t time
        then pick_loop max_bytes (msgs ++ f.content ∷ []) time (read + length f.content) rest
        else pick_loop max_bytes msgs t read rest)
unfolding pick_loop
pick_loop-cons max_bytes msgs t read time name f rest e fits =
    ap
      (λ o. with_time o (λ time'.
        if ltb 0 max_bytes && ltb max_bytes (length f.content + read)
        then (if read == 0 then panicked else returned (msgs, t))
        else if ltb t time'
        then pick_loop max_bytes (msgs ++ f.content ∷ []) time' (read + length f.content) rest
        else pick_loop max_bytes msgs t read rest))
      e
    ∙ rw fits

pick_loop-undated :
    (max_bytes : ℕ) (msgs : List Bytes) (t read : ℕ) (name : Bytes) (f : File)
    (rest : Map Bytes File)
    → file_time name ≡ none
    → pick_loop max_bytes msgs t read ((name, f) ∷ rest) ≡ failed Failure.bad_number
unfolding pick_loop
pick_loop-undated max_bytes msgs t read name f rest bad =
    ap
      (λ o. with_time o (λ time'.
        if ltb 0 max_bytes && ltb max_bytes (length f.content + read)
        then (if read == 0 then panicked else returned (msgs, t))
        else if ltb t time'
        then pick_loop max_bytes (msgs ++ f.content ∷ []) time' (read + length f.content) rest
        else pick_loop max_bytes msgs t read rest))
      bad

-- A file that does not fit ends the loop, or panics where it is the first that was read.
pick_loop-full :
    (max_bytes : ℕ) (msgs : List Bytes) (t read time : ℕ) (name : Bytes) (f : File)
    (rest : Map Bytes File)
    → file_time name ≡ some time
    → (ltb 0 max_bytes && ltb max_bytes (length f.content + read)) ≡ true
    → pick_loop max_bytes msgs t read ((name, f) ∷ rest)
      ≡ (if read == 0 then panicked else returned (msgs, t))
unfolding pick_loop
pick_loop-full max_bytes msgs t read time name f rest e full =
    ap
      (λ o. with_time o (λ time'.
        if ltb 0 max_bytes && ltb max_bytes (length f.content + read)
        then (if read == 0 then panicked else returned (msgs, t))
        else if ltb t time'
        then pick_loop max_bytes (msgs ++ f.content ∷ []) time' (read + length f.content) rest
        else pick_loop max_bytes msgs t read rest))
      e
    ∙ rw full

-- A file whose name is a time that is not after `t`.
abbrev pub DatedTo : ℕ → Bytes × File → Type 0
DatedTo t (name, f) = (time : ℕ) × (file_time name ≡ some time) × (time ≤ t)

-- Without a limit: the time that is returned is past every file.
pick_loop_dated :
    (msgs msgs' : List Bytes) (t t' read : ℕ) (files : Map Bytes File)
    → pick_loop 0 msgs t read files ≡ returned (msgs', t')
    → (t ≤ t') × All (DatedTo t') files
pick_loop_dated msgs msgs' t t' read [] e = unfold pick_loop in (ground (arith, e), tt)
pick_loop_dated msgs msgs' t t' read ((name, f) ∷ rest) e = elim (Option-cases (file_time name)) [
  | inl bad ↦ absurd (not_dated bad)
  | inr (time, dated) ↦
      let step = pick_loop-cons 0 msgs t read time name f rest dated refl in
      elim (Bool-cases (ltb t time)) [
        | inl later ↦
            let taken : pick_loop 0 (msgs ++ f.content ∷ []) time (read + length f.content) rest
                ≡ returned (msgs', t') =
              rw later at (sym step ∙ e) in
            let (up, all) =
              pick_loop_dated (msgs ++ f.content ∷ []) msgs' time t' (read + length f.content) rest
                taken in
            (ground (arith, later, up), ((time, dated, up), all))
        | inr earlier ↦
            let skipped : pick_loop 0 msgs t read rest ≡ returned (msgs', t') =
              rw earlier at (sym step ∙ e) in
            let (up, all) = pick_loop_dated msgs msgs' t t' read rest skipped in
            (up, ((time, dated, ground (arith, earlier, up)), all))
      ]
]
  where
    not_dated : file_time name ≡ none → ⊥
    not_dated bad = ground (arith, sym (pick_loop-undated 0 msgs t read name f rest bad) ∙ e)

-- From a time that is past every file there is nothing to collect.
pick_loop_past :
    (msgs : List Bytes) (t read : ℕ) (files : Map Bytes File)
    → All (DatedTo t) files
    → pick_loop 0 msgs t read files ≡ returned (msgs, t)
pick_loop_past msgs t read [] all = unfold pick_loop in refl
pick_loop_past msgs t read ((name, f) ∷ rest) ((time, dated, past), all) =
    pick_loop-cons 0 msgs t read time name f rest dated refl
    ∙ rw (le→ltb t time past) (pick_loop_past msgs t read rest all)

-- Without a limit, and whatever the order of the files: the time that a Pickup returns is past every
-- file, so that the next one, from that time, finds nothing, whichever files the first one left out.
pub pick_forgets :
    (files : Map Bytes File) (last t : ℕ) (msgs : List Bytes)
    → pick files last 0 ≡ returned (msgs, t)
    → All (DatedTo t) files × (pick files t 0 ≡ returned ([], t))
unfolding pick
pick_forgets files last t msgs e =
    let (up, all) = pick_loop_dated [] msgs last t 0 files e in
    (all, pick_loop_past [] t 0 files all)

-- A first file that is larger than the limit makes Pickup panic, even where its time is not after the
-- time that is asked from.
pub pick_old_panics :
    (name : Bytes) (f : File) (rest : Map Bytes File) (last max_bytes time : ℕ)
    → file_time name ≡ some time
    → time ≤ last
    → 0 < max_bytes
    → max_bytes < length f.content
    → pick ((name, f) ∷ rest) last max_bytes ≡ panicked
unfolding pick
pick_old_panics name f rest last max_bytes time dated old limited large =
    pick_loop-full max_bytes [] last 0 time name f rest dated (
      rw (lt→ltb 0 max_bytes limited)
        (lt→ltb max_bytes (length f.content + 0) (omega (arith, large))))
