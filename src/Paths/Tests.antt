-- ===== src/Paths/Tests.antt =====
-- Concrete paths.
use backup_server.Base.{◌≡◌, ◌∙◌, true, false, ap, refl, [], ◌∷◌, ◌++◌, All}
use backup_server.Base.Bytes.Laws.{lacks-Lacks, has_prefix-append}
use backup_server.Base.Bytes.{Bytes, codes, has_prefix, trim_prefix, split, join}
use backup_server.Paths.{Roots, real_path, clean}
use backup_server.Paths.Places.{Leads, shared, owned, NotUnder}
use backup_server.Paths.Inside.{IsName, NoUp, plain, real_path_inside}

abbrev roots : Roots
roots = record {
  node = codes "olares";
  userspace = codes "/rootfs/userspace/pvc-1";
  appcache = codes "/appcache/Cache/pvc-2";
}

cleaned : clean (codes "/a/./b//../c") ≡ codes "/a/c"
unfolding clean split join
cleaned = refl

relative_cleaned : clean (codes "../a/../../b") ≡ codes "../../b"
unfolding clean split join
relative_cleaned = refl

home_path :
    real_path roots (codes "/Files/Home/Pictures") ≡ codes "/rootfs/userspace/pvc-1/Home/Pictures"
unfolding real_path split join has_prefix trim_prefix
home_path = refl

shared_path : real_path roots (codes "/Files/External/olares/usb/x/") ≡ codes "/shares/usb/x"
unfolding real_path split join has_prefix trim_prefix
shared_path = refl

-- A path with steps up leads out of the directory of the user.
leaves : real_path roots (codes "/Files/../../../etc") ≡ codes "/etc"
unfolding real_path split join has_prefix trim_prefix
leaves = refl

abbrev pictures : Bytes
pictures = codes "/Files/Home/Pictures"

shared_photos :
    Leads roots (codes "/Files/External/olares/disk/./a") (codes "/shares") (codes "disk/./a")
shared_photos = shared refl refl

false_true : {A : Type 0} → false ≡ true → A
false_true h = cc

not_shared : NotUnder pictures (codes "/Files/External/olares")
unfolding has_prefix
not_shared t h = false_true (
    ap (λ s. has_prefix s (codes "/Files/External/olares")) h
    ∙ has_prefix-append (codes "/Files/External/olares") (b'/' ∷ t))

root_names : All IsName (codes "rootfs" ∷ codes "userspace" ∷ codes "pvc-1" ∷ [])
root_names = (
  (lacks-Lacks (codes "rootfs") b'/' refl, refl, refl),
  (
    (lacks-Lacks (codes "userspace") b'/' refl, refl, refl),
    ((lacks-Lacks (codes "pvc-1") b'/' refl, refl, refl), tt),
  ),
)

no_steps_up : NoUp (split (codes "Home/Pictures") b'/')
unfolding split
no_steps_up = (refl, (refl, tt))

real_path_inside_example :
    real_path roots pictures
    ≡ b'/'
      ∷ join
          ((codes "rootfs" ∷ codes "userspace" ∷ codes "pvc-1" ∷ [])
            ++ plain (split (codes "Home/Pictures") b'/'))
          b'/'
unfolding join
real_path_inside_example =
    real_path_inside roots pictures (codes "/rootfs/userspace/pvc-1") (codes "Home/Pictures")
      (codes "rootfs") (codes "userspace" ∷ codes "pvc-1" ∷ []) (owned not_shared refl refl) refl
      root_names no_steps_up
