-- ===== src/Tests/TarTests.antt =====
-- pkg/build/tar.go: an archive whose copy fails, and the stream around it.
use containerdisks.Base.{ℕ, ◌≤◌, refl, true, false, some, none, [], ◌∷◌, Text, codes}
use containerdisks.Go.Result.{Error, ok, err, plain}
use containerdisks.Build.Tar.{
  TarWriter, FileInfo, add_file_to_tar_writer, Stream, started, returned, gone, Step, Steps, stay,
  more, open_ok, stat_ok, go_on, add_failed, footer_ok, leave, adding_error,
}
use containerdisks.Build.Tar.Archive.{IsArchive, add_file_to_tar_writer-IsArchive}
use containerdisks.Build.Tar.Streams.{IsEnd, refusals_of, faults_of, finished-IsEnd}
use containerdisks.Build.Tar.Progress.{IsRunning, steps_of, stream_progress}

abbrev full_disk : Error
full_disk = plain (codes "no space left on device")

-- Times are numbers, and the world is nothing.
abbrev writer : TarWriter ℕ
writer = record {
  World = Unit {0};
  write_header = λ header w. (ok tt, w);
  copy = λ w. (codes "QFI", err full_disk, w);
}

abbrev info : FileInfo ℕ
info = record { size = 4096; mod_time = 7 }

add_file_to_tar_writer-IsArchive_example :
    IsArchive writer info 9
      ((add_file_to_tar_writer writer info 9) tt).0
      ((add_file_to_tar_writer writer info 9) tt).1
add_file_to_tar_writer-IsArchive_example = add_file_to_tar_writer-IsArchive writer info 9 tt

abbrev path : Text
path = codes "/tmp/c1"

abbrev ended : Stream
ended = record {
  opener = returned none;
  writer = gone;
  channel_closed = true;
  file_open = false;
  closings = some (adding_error path full_disk) ∷ none ∷ [];
}

-- The function returns while the writer adds the file.
abbrev trace : Steps path started ended
trace =
    more
      (more
        (more
          (more (more (more stay (open_ok refl refl)) (stat_ok refl refl)) (go_on refl refl refl))
          (add_failed full_disk refl refl refl))
        (footer_ok refl refl refl))
      (leave refl refl)

finished-IsEnd_example : IsEnd path (refusals_of path trace) (faults_of path trace) ended
finished-IsEnd_example = finished-IsEnd path ended trace refl

stream_progress_example :
    (steps_of path trace ≤ 6) × (IsRunning path ended → (t : Stream) × Step path ended t)
stream_progress_example = stream_progress path ended trace
