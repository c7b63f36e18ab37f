-- ===== src/Output/Runs.antt =====
-- A reader over a whole run of a process, and its description by the stream (src/output-reader.ts).
use mathlib.Core.Option.{some-injective, none-ne-some}
use dsh_podman.Prelude.{
  ℕ, ◌-◌, ◌≡◌, refl, sym, ap, ◌∙◌, subst, inl, inr, Bool, true, false, List, [], ◌∷◌, ◌++◌, Option,
  none, some, arith, Bool-cases, if◌then◌else◌, leb, ltb, length, drop, append-nil, append_assoc,
}
use dsh_podman.Text.{Text}
use dsh_podman.Output.{
  Bytes, SpillSpec, OutputReader, output_reader, append, set_spill_valid, is_some, Reading,
  read_from, advertised, spill_needed, spill_path, path_of, discard_unneeded_spill,
}
use dsh_podman.Output.Laws.{
  Reads, output_reader-Reads, append-Reads, append-same, length-drop, drop-drop,
}

-- What reaches a reader: a buffer of output, or the guest's word on the spill file.
pub data Arrival : Type 0 where
  arrived : Bytes → Arrival
  judged : Bool → Arrival

abbrev pub arrive : OutputReader → Arrival → OutputReader
arrive r (arrived chunk) = append r chunk
arrive r (judged valid) = set_spill_valid r valid

unfoldable pub arrive_all : OutputReader → List Arrival → OutputReader
arrive_all r [] = r
arrive_all r (a ∷ arrivals) = arrive_all (arrive r a) arrivals

-- The whole stream, and the last word on the spill file.
pub stream_of : List Arrival → Bytes
stream_of [] = []
stream_of (arrived chunk ∷ arrivals) = chunk ++ stream_of arrivals
stream_of (judged valid ∷ arrivals) = stream_of arrivals

pub valid_after : Bool → List Arrival → Bool
valid_after valid [] = valid
valid_after valid (arrived chunk ∷ arrivals) = valid_after valid arrivals
valid_after valid (judged v ∷ arrivals) = valid_after v arrivals

-- What a read gives, stated by the stream alone.
pub read_of_stream : ℕ → Option SpillSpec → Bool → Bytes → ℕ → Reading
read_of_stream max_bytes spill valid stream offset =
    let start = length stream - max_bytes in
    record {
      bytes = if leb start offset then drop offset stream else drop start stream;
      next_offset = length stream;
      lossy = ltb offset start;
      spill_path = if ltb offset start then advertised spill valid (length stream) else none;
    }

-- A reader that stands for a stream, with the settings that it was made with.
record Refines (r : OutputReader) (max_bytes : ℕ) (spill : Option SpillSpec) (valid : Bool)
    (stream : Bytes) : Type 0 where
  reads : Reads r stream
  cap_same : r.max_bytes ≡ max_bytes
  spill_same : r.spill ≡ spill
  valid_same : r.spill_valid ≡ valid

arrive_all-Refines :
    (r : OutputReader) (arrivals : List Arrival) (max_bytes : ℕ) (spill : Option SpillSpec)
    (valid : Bool) (stream : Bytes)
    → Refines r max_bytes spill valid stream
    → Refines
        (arrive_all r arrivals)
        max_bytes
        spill
        (valid_after valid arrivals)
        (stream ++ stream_of arrivals)
unfolding arrive_all stream_of valid_after
arrive_all-Refines r [] max_bytes spill valid stream h =
    subst (Refines r max_bytes spill valid) (sym (append-nil stream)) h
arrive_all-Refines r (arrived chunk ∷ arrivals) max_bytes spill valid stream h =
    let (a, b, c) = append-same r chunk in
    subst (Refines _ max_bytes spill _) (append_assoc stream chunk (stream_of arrivals)) (
      arrive_all-Refines (append r chunk) arrivals max_bytes spill valid (stream ++ chunk) (record {
        reads = append-Reads r stream chunk h.reads;
        cap_same = a ∙ h.cap_same;
        spill_same = b ∙ h.spill_same;
        valid_same = c ∙ h.valid_same;
      }))
arrive_all-Refines r (judged v ∷ arrivals) max_bytes spill valid stream h =
    arrive_all-Refines (set_spill_valid r v) arrivals max_bytes spill v stream (
      unfold set_spill_valid in
      record {
        reads = record { counted = h.reads.counted; kept = h.reads.kept; sized = h.reads.sized };
        cap_same = h.cap_same;
        spill_same = h.spill_same;
        valid_same = refl;
      })

reading :
    (r : OutputReader) (max_bytes : ℕ) (spill : Option SpillSpec) (valid : Bool) (stream : Bytes)
    (offset : ℕ)
    → Refines r max_bytes spill valid stream
    → read_from r offset ≡ read_of_stream max_bytes spill valid stream offset
unfolding read_from read_of_stream
reading r max_bytes spill valid stream offset h =
    rw (h.reads.counted, h.spill_same, h.valid_same, h.reads.kept, h.cap_same, start_of)
      (ap
        (λ b. record {
          bytes = b;
          next_offset = length stream;
          lossy = ltb offset (length stream - max_bytes);
          spill_path =
              if ltb offset (length stream - max_bytes)
              then advertised spill valid (length stream)
              else none;
        })
        shown)
  where
    shown :
        drop (offset - (length stream - max_bytes)) (drop (length stream - max_bytes) stream) ≡ (
          if leb (length stream - max_bytes) offset
          then drop offset stream
          else drop (length stream - max_bytes) stream)
    shown =
        drop-drop (offset - (length stream - max_bytes)) (length stream - max_bytes) stream
        ∙ (elim (Bool-cases (leb (length stream - max_bytes) offset)) [
          | inl e ↦ rw e (ap (λ n. drop n stream) (ground arith))
          | inr e ↦ rw e (ap (λ n. drop n stream) (ground arith))
        ])

    start_of : length stream - r.retained ≡ length stream - max_bytes
    start_of =
        omega (arith, h.reads.sized, h.cap_same, length-drop (length stream - r.max_bytes) stream)

from_the_start :
    (max_bytes : ℕ) (spill : Option SpillSpec) (arrivals : List Arrival)
    → Refines
        (arrive_all (output_reader max_bytes spill) arrivals)
        max_bytes
        spill
        (valid_after (is_some spill) arrivals)
        (stream_of arrivals)
from_the_start max_bytes spill arrivals =
    arrive_all-Refines (output_reader max_bytes spill) arrivals max_bytes spill (is_some spill) [] (
      unfold output_reader in
      record {
        reads = output_reader-Reads max_bytes spill;
        cap_same = refl;
        spill_same = refl;
        valid_same = refl;
      })

-- Whatever arrived at a new reader, in whatever buffers, a read at any offset gives what the
-- stream alone determines: the bytes from the offset on, or the last `maxBytes` bytes when the
-- offset is before them, the length of the stream as the next offset, `lossy` exactly when bytes
-- after the offset are gone, and then the spill file if its last verdict was valid and the stream
-- fits in it.
pub read_from-arrive_all :
    (max_bytes : ℕ) (spill : Option SpillSpec) (arrivals : List Arrival) (offset : ℕ)
    → read_from (arrive_all (output_reader max_bytes spill) arrivals) offset
      ≡ read_of_stream max_bytes spill
          (valid_after (is_some spill) arrivals)
          (stream_of arrivals)
          offset
read_from-arrive_all max_bytes spill arrivals offset =
    reading _ max_bytes spill (valid_after (is_some spill) arrivals) (stream_of arrivals) offset
      (from_the_start max_bytes spill arrivals)

discarded :
    (r : OutputReader) (max_bytes : ℕ) (spill : SpillSpec) (valid : Bool) (stream : Bytes)
    → Refines r max_bytes (some spill) valid stream
    → discard_unneeded_spill (some r)
      ≡ (if ltb max_bytes (length stream) then none else some spill.path)
unfolding discard_unneeded_spill spill_path path_of spill_needed
discarded r max_bytes spill valid stream h = rw (h.spill_same, h.cap_same, h.reads.counted) refl

-- After any arrivals: if `discardUnneededSpill` deletes a file, it is the reader's own, no output
-- was dropped, and a read at any offset is not lossy, names no file, and gives every byte of the
-- stream from the offset on.
pub discard_unneeded_spill-read_from :
    (max_bytes : ℕ) (spill : SpillSpec) (arrivals : List Arrival) (path : Text) (offset : ℕ)
    → discard_unneeded_spill (some (arrive_all (output_reader max_bytes (some spill)) arrivals))
      ≡ some path
    → (path ≡ spill.path)
      × (read_from (arrive_all (output_reader max_bytes (some spill)) arrivals) offset ≡ record {
        bytes = drop offset (stream_of arrivals);
        next_offset = length (stream_of arrivals);
        lossy = false;
        spill_path = none;
      })
discard_unneeded_spill-read_from max_bytes spill arrivals path offset h =
    elim (Bool-cases (ltb max_bytes (length (stream_of arrivals)))) [
      | inl e ↦ absurd (none-ne-some path (sym (deleted ∙ at_true e) ∙ h))
      | inr e ↦
          let fits : length (stream_of arrivals) - max_bytes ≡ 0 = ground arith in
          let whole : leb 0 offset ≡ true = ground arith in
          let kept : ltb offset 0 ≡ false = ground arith in
          (
            some-injective _ _ (sym h ∙ deleted ∙ at_false e),
            read_from-arrive_all max_bytes (some spill) arrivals offset
                ∙ unfold read_of_stream in rw (fits, whole, kept) refl,
          )
    ]
  where
    at_true : {b : Bool} → b ≡ true → (if b then none else some spill.path) ≡ none
    at_true e = rw e refl

    at_false : {b : Bool} → b ≡ false → (if b then none else some spill.path) ≡ some spill.path
    at_false e = rw e refl

    deleted :
        discard_unneeded_spill (some (arrive_all (output_reader max_bytes (some spill)) arrivals))
        ≡ (if ltb max_bytes (length (stream_of arrivals)) then none else some spill.path)
    deleted =
        discarded _ max_bytes spill _ (stream_of arrivals)
          (from_the_start max_bytes (some spill) arrivals)
