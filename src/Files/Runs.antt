-- ===== src/Files/Runs.antt =====
-- A directory of two messages.
use ratnet.Prelude.{◌≡◌, refl, [], ◌∷◌, Map, Bytes, All}
use ratnet.Go.{returned}
use ratnet.Api.{OutboxMsg}
use ratnet.Files.{File, hex64, pick}
use ratnet.Files.Pick.{as_files, DatedTo, pick_forgets}

abbrev early : OutboxMsg
early = record { channel = []; msg = 1 ∷ 2 ∷ []; time_stamp = 5 }

abbrev late : OutboxMsg
late = record { channel = 7 ∷ []; msg = 3 ∷ []; time_stamp = 9 }

-- The later message's file is walked first.
abbrev crossed : Map Bytes File
crossed = as_files (late ∷ early ∷ [])

pick-crossed : pick crossed 0 0 ≡ returned ((3 ∷ []) ∷ [], 9)
unfolding pick hex64
pick-crossed = refl

pick_forgets_example : All (DatedTo 9) crossed × (pick crossed 9 0 ≡ returned ([], 9))
pick_forgets_example = pick_forgets crossed 0 9 ((3 ∷ []) ∷ []) pick-crossed
