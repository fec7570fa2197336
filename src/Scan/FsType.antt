-- ===== src/Scan/FsType.antt =====
-- internal/scan/fstype.go: what to make of the filesystem at a mount point.
use osfp.Base.{Bytes, codes, Bool, true, false, List, [], ◌∷◌, bytes_eq, if◌then◌else◌}

pub data FsKind : Type 0 where
  fs_local fs_pseudo fs_network fs_unknown : FsKind

-- `FSKind.String`
unfoldable pub kind_string : FsKind → Bytes
kind_string FsKind.fs_pseudo = codes "pseudo filesystem"
kind_string FsKind.fs_network = codes "network filesystem"
kind_string FsKind.fs_unknown = codes "unidentified filesystem"
kind_string FsKind.fs_local = codes "local filesystem"

abbrev member : Bytes → List Bytes → Bool
member name [] = false
member name (n ∷ ns) = if bytes_eq name n then true else member name ns

-- `pseudoFilesystems`
abbrev pub pseudo_filesystems : List Bytes
pseudo_filesystems =
    codes "proc"
    ∷ codes "procfs"
    ∷ codes "linprocfs"
    ∷ codes "sysfs"
    ∷ codes "linsysfs"
    ∷ codes "devfs"
    ∷ codes "devtmpfs"
    ∷ codes "devpts"
    ∷ codes "ptyfs"
    ∷ codes "ptsfs"
    ∷ codes "kernfs"
    ∷ codes "fdescfs"
    ∷ codes "fdesc"
    ∷ codes "debugfs"
    ∷ codes "tracefs"
    ∷ codes "securityfs"
    ∷ codes "selinuxfs"
    ∷ codes "configfs"
    ∷ codes "binfmt_misc"
    ∷ codes "bpf"
    ∷ codes "pstore"
    ∷ codes "efivarfs"
    ∷ codes "mqueue"
    ∷ codes "hugetlbfs"
    ∷ codes "cgroup"
    ∷ codes "cgroup2"
    ∷ codes "fusectl"
    ∷ codes "objfs"
    ∷ codes "ctfs"
    ∷ codes "sharefs"
    ∷ codes "mntfs"
    ∷ codes "dev"
    ∷ codes "fd"
    ∷ codes "bootfs"
    ∷ codes "tmpfs"
    ∷ codes "ramfs"
    ∷ codes "mfs"
    ∷ codes "autofs"
    ∷ codes "ahafs"
    ∷ []

-- `networkFilesystems`
abbrev pub network_filesystems : List Bytes
network_filesystems =
    codes "nfs"
    ∷ codes "nfs3"
    ∷ codes "nfs4"
    ∷ codes "nfsv4"
    ∷ codes "cifs"
    ∷ codes "smbfs"
    ∷ codes "smb2"
    ∷ codes "smb3"
    ∷ codes "afs"
    ∷ codes "9p"
    ∷ codes "ceph"
    ∷ codes "glusterfs"
    ∷ codes "sshfs"
    ∷ codes "lofs"
    ∷ codes "namefs"
    ∷ []

-- `classifyFS`, on the answer of `fsTypeName`: a name, and whether it could be determined.
unfoldable pub classify_fs : Bytes × Bool → Bytes × FsKind
classify_fs (name, false) = (name, FsKind.fs_unknown)
classify_fs (name, true) =
    if member name pseudo_filesystems
    then (name, FsKind.fs_pseudo)
    else if member name network_filesystems
    then (name, FsKind.fs_network)
    else (name, FsKind.fs_local)
