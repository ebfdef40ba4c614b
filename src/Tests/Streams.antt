-- ===== src/Tests/Streams.antt =====
-- The theorems on reading a stream at a concrete capture: what is behind the file header of a file
-- with two packets, which a source hands out as `fread` does.
use libcap_utils.Prelude.{
  ℕ, zero, suc, ◌+◌, ◌≤◌, ◌≡◌, ◌≢◌, refl, ap, sym, ◌∙◌, List, [], ◌∷◌, ◌++◌, replicate, length,
  take, drop, none, some, Option, Bool, false, ◌==◌, arith, length-take,
}
use libcap_utils.Filter.{CapHeader}
use libcap_utils.Stream.{
  Stream, Status, Answer, received, closed, failed, Source, Matcher, stream_alloc,
}
use libcap_utils.Stream.Cells.{bytes_at}
use libcap_utils.Stream.Fill.{fill_buffer, IsWellFormed, pending}
use libcap_utils.Stream.Fill.Lossless.{Filled, fill_buffer_lem, unread}
use libcap_utils.Stream.Read.{Situation, stream_read}
use libcap_utils.Stream.Read.Ends.{Reads, stream_read_returns, stream_read-Reads}

-- An answer with these bytes; none is the end of the file.
unfoldable pub answer : List ℕ → Answer
answer [] = closed
answer (b ∷ bytes) = received (b ∷ bytes)

take-drop : (n : ℕ) (bytes : List ℕ) → bytes ≡ take n bytes ++ drop n bytes
take-drop zero bytes = refl
take-drop (suc n) [] = refl
take-drop (suc n) (b ∷ bytes) = ap (λ r. b ∷ r) (take-drop n bytes)

answer_received :
    (start : List ℕ) {bytes : List ℕ}
    → answer start ≡ received bytes
    → (1 ≤ length bytes) × (start ≡ bytes)
unfolding answer
answer_received [] h = absurd (ground arith)
answer_received (b ∷ start) h = ground arith

answer_closed : (start : List ℕ) → answer start ≡ closed → start ≡ []
unfolding answer
answer_closed [] h = refl
answer_closed (b ∷ start) h = absurd (ground arith)

answer_failed : (start : List ℕ) (errno : ℕ) → answer start ≢ failed errno
unfolding answer
answer_failed [] errno = λ h. absurd (ground arith)
answer_failed (b ∷ start) errno = λ h. absurd (ground arith)

abbrev pub fread : List ℕ → ℕ → Answer × List ℕ
fread bytes max = (answer (take max bytes), drop max bytes)

first : Answer × List ℕ → Answer
first p = p.0

second : Answer × List ℕ → List ℕ
second p = p.1

pub file_received :
    (w : List ℕ) (max : ℕ) {bytes next : List ℕ}
    → fread w max ≡ (received bytes, next)
    → (1 ≤ length bytes) × (length bytes ≤ max) × (w ≡ bytes ++ next)
unfolding first second
file_received w max h =
    let (pos, same) = answer_received (take max w) (ap first h) in
    let rest = ap second h in
    (
      pos,
      omega (arith, length-take max w, ap length same),
      rw (sym same, sym rest) (take-drop max w),
    )

pub file_closed : (w : List ℕ) (max : ℕ) {next : List ℕ} → fread w max ≡ (closed, next) → next ≡ w
unfolding first second
file_closed w max h =
    let none_left = answer_closed (take max w) (ap first h) in
    sym (take-drop max w ∙ ap (λ t. t ++ drop max w) none_left ∙ ap second h)

pub file_failed :
    (w : List ℕ) (max : ℕ) {errno : ℕ} {next : List ℕ}
    → fread w max ≡ (failed errno, next)
    → (1 ≤ errno) × (next ≡ w)
unfolding first
file_failed w max {errno} h = absurd (answer_failed (take max w) errno (ap first h))

-- A regular file that can be read without errors.
abbrev pub file : Source
file = record {
  World = List ℕ;
  receive = fread;
  rest = λ bytes. bytes;
  received-rest = λ w max {bytes} {next} h. file_received w max h;
  closed-rest = λ w max {next} h. file_closed w max h;
  failed-rest = λ w max {errno} {next} h. file_failed w max h;
}

-- A filter on packets of two captured bytes, which counts the packets.
abbrev count : ℕ → CapHeader → Option (Bool × ℕ)
count n head = some (head.caplen == 2, n + 1)

abbrev counting : Matcher
counting = record { State = ℕ; apply = count }

counting_answers : (head : CapHeader) (n : ℕ) → count n head ≢ none
counting_answers head n = λ e. absurd (ground arith)

-- A header of 36 bytes and as many bytes as it says.
abbrev pub packet : ℕ → List ℕ
packet n = replicate 32 0 ++ (n ∷ 0 ∷ 0 ∷ 0 ∷ []) ++ replicate n 7

abbrev capture : List ℕ
capture = packet 3 ++ packet 2

-- A stream with a buffer for one packet at a time.
abbrev fresh : Stream
fresh = stream_alloc 50 1500

fresh-IsWellFormed : IsWellFormed fresh
unfolding stream_alloc
fresh-IsWellFormed = record { in_order = omega arith; within = omega arith; small = omega arith }

stream_read_returns_example :
    (result : Status × Situation file counting) × (stream_read file counting 200 false fresh
        (some 0)
        capture
      ≡ some result)
    × Reads file counting (some 0) (unread file fresh capture) result
unfolding unread pending stream_alloc bytes_at
stream_read_returns_example =
    stream_read_returns file counting 200 fresh (some 0) capture counting_answers fresh-IsWellFormed
      (omega arith)

fill_buffer_lem_example :
    let (status, st', w') = fill_buffer file fresh capture in
    Filled file fresh capture status st' w'
fill_buffer_lem_example = fill_buffer_lem file fresh capture fresh-IsWellFormed

reading :
    (result : Status × Situation file counting) × (stream_read file counting 200 false fresh
        (some 0)
        capture
      ≡ some result)
    × Reads file counting (some 0) (unread file fresh capture) result
unfolding unread pending stream_alloc bytes_at
reading =
    stream_read_returns file counting 200 fresh (some 0) capture counting_answers fresh-IsWellFormed
      (omega arith)

stream_read-Reads_example : Reads file counting (some 0) (unread file fresh capture) (reading.0)
stream_read-Reads_example =
    stream_read-Reads file counting 200 false fresh (some 0) capture (reading.0) fresh-IsWellFormed
      (reading.1)
