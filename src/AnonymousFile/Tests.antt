-- ===== src/AnonymousFile/Tests.antt =====
-- An anonymous file in the directory "/r", and one that cannot get its size.
use xylitol.Common.{Bool, true, false, ◌≡◌, refl, arith, some, [], ◌∷◌, Bytes}
use xylitol.Common.Int.{pos, negsuc}
use xylitol.AnonymousFile.{
  System, set_cloexec_or_close, unlink, created, create_tmpfile_cloexec, resized, in_directory,
  os_create_anonymous_file,
}
use xylitol.AnonymousFile.Outcomes.{start, IsAnonymous, os_create_anonymous_file-IsAnonymous}

abbrev directory : Bytes
directory = b'/' ∷ b'r' ∷ []

abbrev system : Bool → System
system room_on_disk = record {
  have_mkostemp = false;
  xdg_runtime_dir = some directory;
  malloc_succeeds = λ _. true;
  mkstemp = λ _. some 5;
  getfd_succeeds = true;
  setfd_succeeds = true;
  unlink_succeeds = true;
  ftruncate_succeeds = λ _. room_on_disk;
  errno_after_close = 27;
}

disk_full : (os_create_anonymous_file (system false) (pos 4096) start).0 ≡ negsuc 26
unfolding os_create_anonymous_file in_directory create_tmpfile_cloexec created resized unlink
    set_cloexec_or_close
disk_full = refl

os_create_anonymous_file-IsAnonymous_example :
    IsAnonymous (pos 4096) (os_create_anonymous_file (system false) (pos 4096) start)
os_create_anonymous_file-IsAnonymous_example =
    os_create_anonymous_file-IsAnonymous (system false) refl (omega arith) (pos 4096)
