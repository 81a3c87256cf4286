-- ===== src/Errno.antt =====
-- linux_abi/errno_table.c: the names and descriptions of errno values. The numbers of <errno.h> are
-- those of Linux on x86_64 and aarch64.
use vhdp.Base.{ℕ, List, [], ◌∷◌, Option, some, none, String, Bytes, codes, if◌then◌else◌, ◌==◌}

-- `struct errno_entry`
pub record ErrnoEntry : Type 0 where
  pub errno : ℕ
  pub name : Bytes
  pub description : Bytes

abbrev entry : ℕ → String → String → ErrnoEntry
entry n name description = record { errno = n; name = codes name; description = codes description }

abbrev pub errno_table : List ErrnoEntry
errno_table =
    entry 1 "EPERM" "Operation not permitted"
    ∷ entry 2 "ENOENT" "No such file or directory"
    ∷ entry 3 "ESRCH" "No such process"
    ∷ entry 4 "EINTR" "Interrupted system call"
    ∷ entry 5 "EIO" "Input/output error"
    ∷ entry 6 "ENXIO" "No such device or address"
    ∷ entry 7 "E2BIG" "Argument list too long"
    ∷ entry 8 "ENOEXEC" "Exec format error"
    ∷ entry 9 "EBADF" "Bad file descriptor"
    ∷ entry 10 "ECHILD" "No child processes"
    ∷ entry 11 "EAGAIN" "Resource temporarily unavailable"
    ∷ entry 12 "ENOMEM" "Cannot allocate memory"
    ∷ entry 13 "EACCES" "Permission denied"
    ∷ entry 14 "EFAULT" "Bad address"
    ∷ entry 16 "EBUSY" "Device or resource busy"
    ∷ entry 17 "EEXIST" "File exists"
    ∷ entry 18 "EXDEV" "Invalid cross-device link"
    ∷ entry 19 "ENODEV" "No such device"
    ∷ entry 20 "ENOTDIR" "Not a directory"
    ∷ entry 21 "EISDIR" "Is a directory"
    ∷ entry 22 "EINVAL" "Invalid argument"
    ∷ entry 24 "EMFILE" "Too many open files"
    ∷ entry 28 "ENOSPC" "No space left on device"
    ∷ entry 29 "ESPIPE" "Illegal seek"
    ∷ entry 30 "EROFS" "Read-only file system"
    ∷ entry 31 "EMLINK" "Too many links"
    ∷ entry 32 "EPIPE" "Broken pipe"
    ∷ entry 34 "ERANGE" "Numerical result out of range"
    ∷ entry 36 "ENAMETOOLONG" "File name too long"
    ∷ entry 38 "ENOSYS" "Function not implemented"
    ∷ entry 39 "ENOTEMPTY" "Directory not empty"
    ∷ entry 40 "ELOOP" "Too many levels of symbolic links"
    ∷ entry 61 "ENODATA" "No data available"
    ∷ entry 75 "EOVERFLOW" "Value too large for defined data type"
    ∷ entry 88 "ENOTSOCK" "Socket operation on non-socket"
    ∷ entry 97 "EAFNOSUPPORT" "Address family not supported by protocol"
    ∷ entry 98 "EADDRINUSE" "Address already in use"
    ∷ entry 111 "ECONNREFUSED" "Connection refused"
    ∷ entry 95 "EOPNOTSUPP" "Operation not supported"
    ∷ entry 110 "ETIMEDOUT" "Connection timed out"
    ∷ entry 25 "ENOTTY" "Inappropriate ioctl for device"
    ∷ entry 26 "ETXTBSY" "Text file busy"
    ∷ entry 27 "EFBIG" "File too large"
    ∷ entry 33 "EDOM" "Numerical argument out of domain"
    ∷ entry 93 "EPROTONOSUPPORT" "Protocol not supported"
    ∷ entry 35 "EDEADLK" "Resource deadlock avoided"
    ∷ entry 15 "ENOTBLK" "Block device required"
    ∷ entry 37 "ENOLCK" "No locks available"
    ∷ entry 84 "EILSEQ" "Invalid or incomplete multibyte or wide character"
    ∷ entry 89 "EDESTADDRREQ" "Destination address required"
    ∷ entry 90 "EMSGSIZE" "Message too long"
    ∷ entry 91 "EPROTOTYPE" "Protocol wrong type for socket"
    ∷ entry 92 "ENOPROTOOPT" "Protocol not available"
    ∷ entry 99 "EADDRNOTAVAIL" "Cannot assign requested address"
    ∷ entry 100 "ENETDOWN" "Network is down"
    ∷ entry 101 "ENETUNREACH" "Network is unreachable"
    ∷ entry 104 "ECONNRESET" "Connection reset by peer"
    ∷ entry 105 "ENOBUFS" "No buffer space available"
    ∷ entry 106 "EISCONN" "Transport endpoint is already connected"
    ∷ entry 107 "ENOTCONN" "Transport endpoint is not connected"
    ∷ entry 113 "EHOSTUNREACH" "No route to host"
    ∷ entry 114 "EALREADY" "Operation already in progress"
    ∷ entry 115 "EINPROGRESS" "Operation now in progress"
    ∷ entry 116 "ESTALE" "Stale file handle"
    ∷ entry 122 "EDQUOT" "Disk quota exceeded"
    ∷ entry 125 "ECANCELED" "Operation canceled"
    ∷ entry 130 "EOWNERDEAD" "Owner died"
    ∷ entry 131 "ENOTRECOVERABLE" "State not recoverable"
    ∷ entry 126 "ENOKEY" "Required key not available"
    ∷ entry 123 "ENOMEDIUM" "No medium found"
    ∷ entry 80 "ELIBBAD" "Accessing a corrupted shared library"
    ∷ entry 67 "ENOLINK" "Link has been severed"
    ∷ entry 71 "EPROTO" "Protocol error"
    ∷ entry 74 "EBADMSG" "Bad message"
    ∷ entry 60 "ENOSTR" "Device not a stream"
    ∷ entry 62 "ETIME" "Timer expired"
    ∷ entry 63 "ENOSR" "Out of streams resources"
    ∷ entry 66 "EREMOTE" "Object is remote"
    ∷ entry 87 "EUSERS" "Too many users"
    ∷ entry 94 "ESOCKTNOSUPPORT" "Socket type not supported"
    ∷ entry 96 "EPFNOSUPPORT" "Protocol family not supported"
    ∷ entry 108 "ESHUTDOWN" "Cannot send after transport endpoint shutdown"
    ∷ entry 109 "ETOOMANYREFS" "Too many references: cannot splice"
    ∷ entry 112 "EHOSTDOWN" "Host is down"
    ∷ entry 44 "ECHRNG" "Channel number out of range"
    ∷ []

unfoldable pub find_entry : List ErrnoEntry → ℕ → Option ErrnoEntry
find_entry [] err = none
find_entry (e ∷ rest) err =
    let found = find_entry rest err in if e.errno == err then some e else found

unfoldable pub errno_name : ℕ → Bytes
unfolding find_entry
errno_name err = elim (find_entry errno_table err) [ none ↦ codes "E?" | some e ↦ e.name ]

unfoldable pub errno_description : ℕ → Bytes
unfolding find_entry
errno_description err = elim (find_entry errno_table err) [
  | none ↦ codes "unknown error"
  | some e ↦ e.description
]
