-- ===== src/Tests/Files.antt =====
-- Examples for the contents of files.
use onedriver.Prelude.{none, some, [], ◌∷◌, ◌≡◌, refl, arith, take}
use onedriver.World.{World, UploadSession, Slice, done}
use onedriver.Slices.{len, overwrite, resize}
use onedriver.Slices.Overwrite.{splice}
use onedriver.Slices.Truncate.{overwrite-resize_stale}
use onedriver.Open.{success}
use onedriver.File.{read, write, flush}
use onedriver.File.Contents.{IsLoaded, after_write, write-splice, write-read}
use onedriver.Fields.{is_dir, get_mode}
use onedriver.Upload.{is_large}
use onedriver.File.Reread.{read-flush-write}
use onedriver.Tests.{sample_host, sample_world, sample_laws, sample_slice, willing}

sample-IsLoaded : IsLoaded ((sample_world willing).heap 1) sample_slice
sample-IsLoaded = record { content = refl; size = refl }

write-splice_example :
    (t : Slice) × (write (sample_host willing) 1 (7 ∷ 8 ∷ []) 2 (sample_world willing)
      ≡ done (2, success) (after_write (sample_host willing) 1 (sample_world willing) t))
    × (t.elems ≡ splice (7 ∷ 8 ∷ []) 2 (1 ∷ 2 ∷ 3 ∷ []))
write-splice_example =
    write-splice (sample_host willing) 1 (7 ∷ 8 ∷ []) 2 (sample_world willing) sample_slice
      sample-IsLoaded (omega arith)

write-read_example :
    (t : Slice) × (write (sample_host willing) 1 (7 ∷ 8 ∷ []) 2 (sample_world willing)
      ≡ done (2, success) (after_write (sample_host willing) 1 (sample_world willing) t))
    × (read
          (sample_host willing)
          1
          2
          2
          (after_write (sample_host willing) 1 (sample_world willing) t)
        ≡ done (7 ∷ 8 ∷ [], success) (after_write (sample_host willing) 1 (sample_world willing) t))
    × IsLoaded ((after_write (sample_host willing) 1 (sample_world willing) t).heap 1) t
    × (len t ≡ 4)
write-read_example =
    write-read (sample_host willing) 1 (7 ∷ 8 ∷ []) 2 (sample_world willing) sample_slice
      sample-IsLoaded (omega arith)

overwrite-resize_stale_example :
    (t u : Slice) × (resize (sample_host willing) 0 3 sample_slice ≡ some t)
    × (overwrite (sample_host willing) (7 ∷ []) 2 0 t ≡ some u)
    × (take 2 u.elems ≡ 1 ∷ 2 ∷ [])
overwrite-resize_stale_example =
    overwrite-resize_stale (sample_host willing) sample_slice 0 2 (7 ∷ []) (omega arith)
      (omega arith)

-- A write of two bytes at the end of the file, saved and read again.
read-flush-write_example :
    (u v w' : World (sample_host willing)) × (session : UploadSession) × (write
        (sample_host willing)
        1
        (7 ∷ 8 ∷ [])
        3
        (sample_world willing)
      ≡ done (2, success) u)
    × (flush (sample_host willing) 1 u ≡ done success v)
    × ((v.heap 1).content ≡ none)
    × (v.queued ≡ some session ∷ [])
    × (session.id ≡ "F")
    × (session.content ≡ splice (7 ∷ 8 ∷ []) 3 (1 ∷ 2 ∷ 3 ∷ []))
    × (read (sample_host willing) 1 2 3 v ≡ done (7 ∷ 8 ∷ [], success) w')
    × (w'.sent ≡ [])
unfolding is_dir get_mode is_large
read-flush-write_example =
    read-flush-write (sample_host willing) 1 (7 ∷ 8 ∷ []) 3 (sample_world willing) sample_slice
      (sample_laws willing) (λ b v. (_, refl)) sample-IsLoaded (omega arith) refl refl refl refl
      refl
