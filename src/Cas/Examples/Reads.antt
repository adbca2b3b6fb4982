-- ===== src/Cas/Examples/Reads.antt =====
-- server/internal/cas/reader.go: reading the file of two chunks.
use private_cloud.Prelude.{◌≡◌, refl, false, none, some, [], ◌∷◌, Text, text_eq, ok, arith}
use private_cloud.Cas.Codec.{decompress, compress_chunk, storage_key}
use private_cloud.Cas.Store.{find_blob, find_chunk}
use private_cloud.Cas.Reader.{Reader, refs_of, join, order_by_seq, insert_by_seq, fetch, read}
use private_cloud.Cas.Reader.Slices.{Lies}
use private_cloud.Cas.Reader.Targets.{IsReading}
use private_cloud.Cas.Reader.Reading.{Reads, read-Reads}
use private_cloud.Cas.Reader.Whole.{read_all, read_all-content}
use private_cloud.Cas.Examples.{libraries, committed, manifest, content}

abbrev reader : Reader
reader = record { manifest = manifest; pos = 0; window = none; refs = none; closed = false }

lies : Lies libraries committed 0 (refs_of 9 committed) content
unfolding refs_of join order_by_seq insert_by_seq fetch find_chunk find_blob decompress
    compress_chunk storage_key text_eq
lies = (65 ∷ [], 66 ∷ [], refl, refl, refl, refl, (66 ∷ [], [], refl, refl, refl, refl, refl))

reader-IsReading : IsReading committed content reader
reader-IsReading = record {
  total = refl;
  refs_known = λ rs from e. absurd (cc);
  window_true = λ w start e. absurd (cc);
}

read-Reads_example :
    (out : Text) × (r' : Reader) × (read libraries committed false 5 reader ≡ ok (out, r'))
    × Reads committed content 5 reader out r'
read-Reads_example =
    read-Reads libraries committed content 5 reader lies reader-IsReading refl (omega arith)
      (omega arith)

read_all-content_example : read_all libraries committed (λ i. 1) 3 reader ≡ some content
read_all-content_example =
    read_all-content libraries committed content (λ i. 1) 3 reader (λ i. omega arith) lies
      reader-IsReading refl (omega arith)
