-- ===== src/Usb/Out/Reassembly.antt =====
-- A bulk transfer of any length becomes one command.
use crazyradio2_firmware.Base.{
  ℕ, ◌+◌, ◌-◌, ◌≤◌, ◌<◌, min, ◌≡◌, ◌∙◌, ap, true, false, Option, none, some, List, [], ◌∷◌, ◌++◌,
  append_assoc, arith, take, length, blit, length-append, length-take, length-blit, take-blit,
  take-min, take-append_split, u32, sym,
}
use crazyradio2_firmware.Usb.State.{DataCommand}
use crazyradio2_firmware.Usb.Out.{OutState, kept_bytes, crazyradio_out_cb}

-- The payload holds the first 128 of the bytes that have come.
pub record IsGathered (bytes : List ℕ) (c : DataCommand) : Type 0 where
  pub room : length c.payload ≡ 128
  pub counted : c.length ≡ min 128 (length bytes)
  pub gathered : take c.length c.payload ≡ take 128 bytes

-- The bytes of a transfer, without the last packet.
abbrev pub flat : List (List ℕ) → List ℕ
flat [] = []
flat (p ∷ ps) = p ++ flat ps

abbrev pub AllFull : List (List ℕ) → Type 0
AllFull [] = Unit
AllFull (p ∷ ps) = (length p ≡ 64) × AllFull ps

-- The command that a call may queue, in front of the later ones.
abbrev pub then_queued : Option DataCommand → List DataCommand → List DataCommand
then_queued none cs = cs
then_queued (some c) cs = c ∷ cs

-- A call for each packet, and the commands that these queue.
unfoldable pub run : List (List ℕ) → OutState → OutState × List DataCommand
run [] s = (s, [])
run (p ∷ ps) s =
    let (s', queued) = crazyradio_out_cb p s in
    let (s'', later) = run ps s' in (s'', then_queued queued later)

-- The copy of one more packet: `n` bytes of it, as many as there are and as there is room for.
IsGathered-blit :
    (bytes p : List ℕ) (c : DataCommand) (n : ℕ)
    → IsGathered bytes c
    → n ≡ min (128 - c.length) (length p)
    → IsGathered
        (bytes ++ p)
        (record { payload = blit c.length (take n p) c.payload; length = u32 (c.length + n) })
IsGathered-blit bytes p c n g e =
    let size : length (take n p) ≡ n = omega (arith, length-take n p) in
    let fits : c.length + length (take n p) ≤ length c.payload = omega (arith, g) in
    let total : u32 (c.length + n) ≡ c.length + length (take n p) = omega (arith, g) in
    let room_left : 128 - c.length ≡ 128 - length bytes = omega (arith, g) in
    record {
      room = length-blit c.length (take n p) c.payload fits ∙ g.room;
      counted = omega (arith, length-append bytes p, g);
      gathered =
          take-blit c.length (u32 (c.length + n)) (take n p) c.payload fits (sym total)
          ∙ ap (λ xs. xs ++ take n p) g.gathered
          ∙ ap (λ xs. take 128 bytes ++ xs)
              (ap (λ k. take k p) e ∙ take-min (128 - c.length) p ∙ ap (λ k. take k p) room_left)
          ∙ sym (take-append_split 128 bytes p);
    }

-- The state between two packets of a transfer, after `bytes`.
pub record IsMidway (bytes : List ℕ) (s : OutState) : Type 0 where
  pub midway : s.accumulating ≡ true
  pub so_far : IsGathered bytes s.command

-- The state between two transfers.
pub record IsFresh (s : OutState) : Type 0 where
  pub not_midway : s.accumulating ≡ false
  pub has_room : length s.command.payload ≡ 128

kept_bytes-min : (n space : ℕ) → kept_bytes n space ≡ min space n
unfolding kept_bytes
kept_bytes-min n space = ground arith

-- A packet in the middle of a transfer: a full one goes on, a short one ends it.
accumulate-step :
    (bytes p : List ℕ) (s : OutState)
    → IsMidway bytes s
    → let (s', queued) = crazyradio_out_cb p s in
      IsGathered (bytes ++ p) s'.command
      × (length p ≡ 64 → (s'.accumulating ≡ true) × (queued ≡ none))
      × (length p < 64 → (s'.accumulating ≡ false) × (queued ≡ some s'.command))
unfolding crazyradio_out_cb
accumulate-step bytes p s m =
    let c = s.command in
    let n = kept_bytes (length p) (128 - c.length) in
    ground
      (arith, IsGathered-blit bytes p c n m.so_far (kept_bytes-min (length p) (128 - c.length)))

first-step :
    (p : List ℕ) (s : OutState)
    → IsFresh s
    → let (s', queued) = crazyradio_out_cb p s in
      IsGathered p s'.command
      × (length p ≡ 64 → (s'.accumulating ≡ true) × (queued ≡ none))
      × (length p < 64 → (s'.accumulating ≡ false) × (queued ≡ some s'.command))
unfolding crazyradio_out_cb
first-step p s f =
    let n = kept_bytes (length p) 128 in
    let empty : IsGathered [] (record s.command { length = 0 }) = ground (arith, f) in
    let sum : u32 (0 + n) ≡ n = omega (arith, kept_bytes-min (length p) 128) in
    ground (
      arith,
      IsGathered-blit [] p (record s.command { length = 0 }) n empty
          (kept_bytes-min (length p) 128),
      sum,
      f,
    )

-- A transfer of `bytes` has been made into one command.
pub record IsTransferred (bytes : List ℕ) (r : OutState × List DataCommand) : Type 0 where
  pub ready_again : IsFresh r.0
  pub one_command : r.1 ≡ r.0.command ∷ []
  pub holds_bytes : IsGathered bytes r.0.command

run-IsMidway :
    (ps : List (List ℕ)) (last bytes : List ℕ) (s : OutState)
    → IsMidway bytes s
    → AllFull ps
    → length last < 64
    → IsTransferred (bytes ++ (flat ps ++ last)) (run (ps ++ last ∷ []) s)
unfolding run
run-IsMidway [] last bytes s m full short = ground (arith, accumulate-step bytes last s m)
run-IsMidway (p ∷ ps) last bytes s m full short =
    let s' = (crazyradio_out_cb p s).0 in
    let step = accumulate-step bytes p s m in
    let going = step.1 full.0 in
    let rest =
      run-IsMidway ps last (bytes ++ p) s' (record { midway = going.0; so_far = step.0 }) full.1
        short in
    rw (append_assoc p (flat ps) last, ← append_assoc bytes p (flat ps ++ last), going.1) rest

-- A bulk transfer that comes as any number of full packets and a short one, which may be empty,
-- queues exactly one command; it holds the first 128 bytes of the transfer, and as many as that;
-- and the next transfer starts afresh.
pub run-IsTransferred :
    (ps : List (List ℕ)) (last : List ℕ) (s : OutState)
    → IsFresh s
    → AllFull ps
    → length last < 64
    → IsTransferred (flat ps ++ last) (run (ps ++ last ∷ []) s)
unfolding run
run-IsTransferred [] last s f full short = ground (arith, first-step last s f)
run-IsTransferred (p ∷ ps) last s f full short =
    let s' = (crazyradio_out_cb p s).0 in
    let step = first-step p s f in
    let going = step.1 full.0 in
    let rest =
      run-IsMidway ps last p s' (record { midway = going.0; so_far = step.0 }) full.1 short in
    rw (append_assoc p (flat ps) last, going.1) rest
