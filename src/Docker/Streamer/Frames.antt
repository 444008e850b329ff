-- ===== src/Docker/Streamer/Frames.antt =====
-- demuxDockerLogs of internal/docker/streamer.go against the frames that the daemon writes.
use compose_cockpit.Base.{
  map, ◌≢◌, ℕ, zero, suc, ◌/◌, ◌%◌, ◌≤◌, ◌<◌, String, Bool, true, false, some, List, [], ◌∷◌, ◌++◌,
  ◌≡◌, refl, ap, ◌∙◌, ltb, ◌==◌, length, length-append, arith,
}
use compose_cockpit.Docker.Streamer.{
  read_full, stream_type, Log, trim_line, size_of, max_size, published, frame, demux,
  demux_docker_logs,
}

-- A line of a container: the stream that it writes to, its text, and the bytes that end it, each of
-- which is a line feed or a carriage return.
pub data Output : Type 0 where
  stdout stderr : Output

pub data Ending : Type 0 where
  line_feed carriage_return : Ending

pub record Frame : Type 0 where
  pub output : Output
  pub text : List ℕ
  pub ends : List Ending

-- What Docker documents of the numbers of the streams.
abbrev pub number_of : Output → ℕ
number_of stdout = 1
number_of stderr = 2

abbrev pub name_of : Output → String
name_of stdout = "stdout"
name_of stderr = "stderr"

abbrev pub byte_of : Ending → ℕ
byte_of line_feed = 10
byte_of carriage_return = 13

abbrev pub payload : Frame → List ℕ
payload f = f.text ++ map byte_of f.ends

-- Eight bytes: the stream, three zeros, and the size, the high byte first.
abbrev pub header_of : ℕ → ℕ → List ℕ
header_of stream size =
    stream ∷ 0 ∷ 0 ∷ 0 ∷ size / 16777216 ∷ size / 65536 % 256 ∷ size / 256 % 256 ∷ size % 256 ∷ []

abbrev pub encode : Frame → List ℕ
encode f = header_of (number_of f.output) (length (payload f)) ++ payload f

abbrev pub encode_all : List Frame → List ℕ
encode_all [] = []
encode_all (f ∷ fs) = encode f ++ encode_all fs

-- A text that does not itself end in a line feed or a carriage return.
abbrev pub IsText : List ℕ → Type 0
IsText [] = Unit
IsText (b ∷ []) = (b ≢ 10) × (b ≢ 13)
IsText (b ∷ c ∷ text) = IsText (c ∷ text)

-- The frames that the code reads.
abbrev pub Readable : List Frame → Type 0
Readable [] = Unit
Readable (f ∷ fs) = IsText f.text × (length (payload f) ≤ max_size) × Readable fs

-- The line of a text on a stream; an empty text has none.
abbrev pub printed : String → Output → List ℕ → List Log → List Log
printed service output [] logs = logs
printed service output (b ∷ text) logs =
    record { service = service; stream = name_of output; line = b ∷ text } ∷ logs

abbrev pub lines_of : String → List Frame → List Log
lines_of service [] = []
lines_of service (f ∷ fs) = printed service f.output f.text (lines_of service fs)

trim_line-ends : (ends : List Ending) → trim_line (map byte_of ends) ≡ []
unfolding trim_line
trim_line-ends [] = refl
trim_line-ends (line_feed ∷ ends) = rw (trim_line, trim_line-ends ends) refl
trim_line-ends (carriage_return ∷ ends) = rw (trim_line, trim_line-ends ends) refl

-- The ends of a text are trimmed, and nothing else.
trim_line-text :
    (text : List ℕ) (ends : List Ending) → IsText text → trim_line (text ++ map byte_of ends) ≡ text
unfolding trim_line
trim_line-text [] ends t = trim_line-ends ends
trim_line-text (b ∷ []) ends (no_feed, no_return) =
    rw (trim_line, trim_line-ends ends) (ground arith)
trim_line-text (b ∷ c ∷ text) ends t = rw (trim_line, trim_line-text (c ∷ text) ends t) refl

published-printed :
    (service : String) (output : Output) (text : List ℕ) (logs : List Log)
    → published service (number_of output) text logs ≡ printed service output text logs
unfolding published stream_type
published-printed service output [] logs = refl
published-printed service stdout (b ∷ text) logs = refl
published-printed service stderr (b ∷ text) logs = refl

size_of-header_of : (stream size : ℕ) → size_of (header_of stream size) ≡ size
unfolding size_of
size_of-header_of stream size = omega arith

read_full-append :
    (front rest : List ℕ) → read_full (length front) (front ++ rest) ≡ some (front, rest)
unfolding read_full
read_full-append [] rest = refl
read_full-append (b ∷ front) rest = rw (read_full-append front rest) refl

not_over : (n : ℕ) → n ≤ max_size → ltb max_size n ≡ false
not_over n l = ground arith

is_over : (n : ℕ) → max_size < n → ltb max_size n ≡ true
is_over n l = ground arith

not_zero : (n : ℕ) → max_size < n → (n == 0) ≡ false
not_zero n l = ground arith

suc_not_zero : (n : ℕ) → (suc n == 0) ≡ false
suc_not_zero n = ground arith

abbrev pub never : ℕ → Bool
never k = false

module _ (service : String) where
  -- The bytes that a header announces, or nothing if it announces none.
  frame-payload :
      (next : List ℕ → List Log) (stream : ℕ) (bytes rest : List ℕ)
      → length bytes ≤ max_size
      → frame never service next (header_of stream (length bytes)) (bytes ++ rest)
        ≡ published service stream (trim_line bytes) (next rest)
  unfolding frame published trim_line
  frame-payload next stream [] rest l = refl
  frame-payload next stream (b ∷ bytes) rest l =
      rw
        (
          frame,
          size_of-header_of stream (suc (length bytes)),
          suc_not_zero (length bytes),
          not_over (suc (length bytes)) l,
          read_full-append (b ∷ bytes) rest,
        )
        refl

  -- A frame of a size that the code reads, and then the rest.
  demux-encode :
      (fuel k : ℕ) (f : Frame) (rest : List ℕ)
      → length (payload f) ≤ max_size
      → demux never service (suc fuel) k (encode f ++ rest)
        ≡ published service
            (number_of f.output)
            (trim_line (payload f))
            (demux never service fuel (suc k) rest)
  unfolding demux read_full
  demux-encode fuel k f rest l =
      frame-payload (demux never service fuel (suc k)) (number_of f.output) (payload f) rest l

  demux-encode_all :
      (fuel k : ℕ) (fs : List Frame)
      → Readable fs
      → length (encode_all fs) < fuel
      → demux never service fuel k (encode_all fs) ≡ lines_of service fs
  unfolding demux read_full
  demux-encode_all zero k fs s l = absurd (omega (arith, l))
  demux-encode_all (suc fuel) k [] s l = refl
  demux-encode_all (suc fuel) k (f ∷ fs) (t, small, s) l =
      let shorter : length (encode_all fs) < fuel = omega (
        arith,
        l,
        length-append (header_of (number_of f.output) (length (payload f)) ++ payload f)
            (encode_all fs),
      ) in
      demux-encode fuel k f (encode_all fs) small
      ∙ ap
          (λ line.
            published service (number_of f.output) line
              (demux never service fuel (suc k) (encode_all fs)))
          (trim_line-text f.text f.ends t)
      ∙ ap (published service (number_of f.output) f.text)
          (demux-encode_all fuel (suc k) fs s shorter)
      ∙ published-printed service f.output f.text (lines_of service fs)

  -- From the frames of the lines that a container writes, each of at most a megabyte with its ends, come
  -- out exactly their texts without the ends, in the order of the frames, each with the name of its
  -- stream; a line whose text is empty does not come out.
  pub demux_docker_logs-encode_all :
      (fs : List Frame)
      → Readable fs
      → demux_docker_logs never service (encode_all fs) ≡ lines_of service fs
  unfolding demux_docker_logs
  demux_docker_logs-encode_all fs s =
      demux-encode_all (suc (length (encode_all fs))) 0 fs s (omega arith)

  -- The bytes of a frame of more than a megabyte are not skipped: they are read as frames.
  demux-oversize :
      (fuel k stream : ℕ) (bytes rest : List ℕ)
      → max_size < length bytes
      → demux never service (suc fuel) k ((header_of stream (length bytes) ++ bytes) ++ rest)
        ≡ demux never service fuel (suc k) (bytes ++ rest)
  unfolding demux read_full frame
  demux-oversize fuel k stream bytes rest l =
      rw
        (
          demux,
          frame,
          size_of-header_of stream (length bytes),
          not_zero (length bytes) l,
          is_over (length bytes) l,
        )
        refl
