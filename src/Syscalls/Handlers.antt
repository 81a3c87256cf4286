-- ===== src/Syscalls/Handlers.antt =====
-- The handlers of linux_abi/syscall_table.hpp; those whose names other modules use have an
-- ending or a prefix.

pub data Handler : Type 0 where
  no_handler : Handler
  open_handler openat creat stat_handler lstat newfstatat statx_handler : Handler
  access faccessat faccessat2 readlink readlinkat chdir getcwd_handler : Handler
  mkdir mkdirat mknod mknodat rmdir unlink unlinkat rename renameat renameat2 : Handler
  link linkat symlink symlinkat chmod fchmodat fchmodat2 chown lchown fchownat : Handler
  utime utimes futimesat utimensat truncate statfs : Handler
  xattr_get xattr_lget xattr_set xattr_lset inotify_add_watch fanotify_mark : Handler
  execve execveat fd_meta_write fchown_fd : Handler
  socket connect bind sendto sendmsg sendmmsg : Handler
  clone kill tkill tgkill sigqueue tgsigqueue pidfd_open : Handler
  getuid geteuid getgid getegid getresuid getresgid setid : Handler
  deny_eperm deny_enosys deny_eopnotsupp deny_eacces : Handler
