-- ===== src/Proxmox/Disk.antt =====
-- providers/proxmox/proxmox.go: `summarizeGuestFilesystems`.
use komari_bridge.Base.{
  ◌≡◌, String, ◌==◌, Bool, true, false, ◌||◌, any, List, [], ◌∷◌, ◌++◌, All, All-append, arith,
  Result, ok, fail_if, ◌>>◌,
}
use komari_bridge.Base.Int.{ℤ, pos, ◌+ℤ◌, ◌<ℤ◌, ltb_ℤ, leb_ℤ}
use komari_bridge.Base.Words.{wrap64}
use komari_bridge.Base.Dict.{StringSet, member}
use komari_bridge.Base.Text.{trim_space, to_lower, first_non_empty}
use komari_bridge.Model.{DiskMount}
use komari_bridge.Bridge.Validate.Sound.{IsUsage}

pub record GuestDevice : Type 0 where
  pub device : String
  pub serial : String

pub record GuestFilesystem : Type 0 where
  pub name : String
  pub mountpoint : String
  pub type : String
  pub total_bytes : ℤ
  pub used_bytes : ℤ
  pub disks : List GuestDevice

pub record GuestDisk : Type 0 where
  pub total : ℤ
  pub used : ℤ
  pub mounts : List DiskMount

pub data DiskError : Type 0 where
  no_usable_filesystems : DiskError

abbrev no_disk : GuestDisk
no_disk = record { total = pos 0; used = pos 0; mounts = [] }

unfoldable pub is_skipped_type : String → Bool
unfolding to_lower trim_space
is_skipped_type type =
    any (λ skipped. to_lower (trim_space type) == skipped)
      ("squashfs" ∷ "iso9660" ∷ "udf" ∷ "tmpfs" ∷ "devtmpfs" ∷ [])

unfoldable pub filesystem_key : GuestFilesystem → String
unfolding trim_space first_non_empty
filesystem_key f = first_non_empty (trim_space f.name ∷ trim_space f.mountpoint ∷ [])

abbrev pub has_bad_usage : GuestFilesystem → Bool
has_bad_usage f =
    leb_ℤ f.total_bytes (pos 0) || ltb_ℤ f.used_bytes (pos 0) || ltb_ℤ f.total_bytes f.used_bytes

unfoldable pub device_of : List GuestDevice → String
unfolding first_non_empty
device_of [] = ""
device_of (d ∷ ds) = first_non_empty (d.device ∷ d.serial ∷ [])

unfoldable pub mount_of : GuestFilesystem → DiskMount
unfolding first_non_empty device_of
mount_of f = record {
  name = f.name;
  mountpoint = first_non_empty (f.mountpoint ∷ f.name ∷ []);
  filesystem = f.type;
  device = device_of f.disks;
  total = f.total_bytes;
  used = f.used_bytes;
}

unfoldable pub add_filesystem : GuestFilesystem → GuestDisk → GuestDisk
unfolding mount_of wrap64
add_filesystem f d = record {
  total = wrap64 (d.total +ℤ f.total_bytes);
  used = wrap64 (d.used +ℤ f.used_bytes);
  mounts = d.mounts ++ mount_of f ∷ [];
}

-- The loop, with the keys seen and the disk so far.
unfoldable pub add_filesystems : List GuestFilesystem → StringSet → GuestDisk → GuestDisk
unfolding add_filesystem filesystem_key is_skipped_type member
add_filesystems [] seen disk = disk
add_filesystems (f ∷ fs) seen disk =
    let key = filesystem_key f in
    elim (has_bad_usage f || is_skipped_type f.type || key == "" || member key seen) [
      | true ↦ add_filesystems fs seen disk
      | false ↦ add_filesystems fs (key ∷ seen) (add_filesystem f disk)
    ]

unfoldable pub summarize_guest_filesystems : List GuestFilesystem → Result DiskError GuestDisk
unfolding add_filesystems
summarize_guest_filesystems fs =
    let disk = add_filesystems fs [] no_disk in
    do
      fail_if (leb_ℤ disk.total (pos 0) || ltb_ℤ disk.used (pos 0) || ltb_ℤ disk.total disk.used)
          no_usable_filesystems
      ok disk

-- A mount of a file system that is not skipped, with a size and nothing used beyond it.
pub record IsGuestMount (m : DiskMount) : Type 0 where
  pub sized : pos 0 <ℤ m.total
  pub usage : IsUsage m.total m.used
  pub kept : is_skipped_type m.filesystem ≡ false

mount_of-IsGuestMount :
    (f : GuestFilesystem)
    → has_bad_usage f ≡ false
    → is_skipped_type f.type ≡ false
    → IsGuestMount (mount_of f)
unfolding mount_of
mount_of-IsGuestMount f good kept = ground arith

add_filesystem-All :
    (f : GuestFilesystem) (d : GuestDisk)
    → IsGuestMount (mount_of f)
    → All IsGuestMount d.mounts
    → All IsGuestMount (add_filesystem f d).mounts
unfolding add_filesystem
add_filesystem-All f d h k = All-append IsGuestMount d.mounts (mount_of f ∷ []) k (h, tt)

add_filesystems-All :
    (fs : List GuestFilesystem) (seen : StringSet) (d : GuestDisk)
    → All IsGuestMount d.mounts
    → All IsGuestMount (add_filesystems fs seen d).mounts
unfolding add_filesystems
add_filesystems-All [] seen d h = h
add_filesystems-All (f ∷ fs) seen d h = ground (
  arith,
  mount_of-IsGuestMount f,
  add_filesystem-All f d,
  add_filesystems-All fs seen d h,
  add_filesystems-All fs (filesystem_key f ∷ seen) (add_filesystem f d),
)

-- A summary that is returned has a size, nothing used beyond it, and mounts that each have a size,
-- nothing used beyond it, and a type that is not skipped.
pub summarize_guest_filesystems_sound :
    (fs : List GuestFilesystem) (d : GuestDisk)
    → summarize_guest_filesystems fs ≡ ok d
    → (pos 0 <ℤ d.total) × IsUsage d.total d.used × All IsGuestMount d.mounts
unfolding summarize_guest_filesystems
summarize_guest_filesystems_sound fs d h = ground (arith, add_filesystems-All fs [] no_disk tt)
