-- ===== src/Kernel/Sys/Ids.antt =====
-- Who may change identities, and to what.
use linux.Base.{◌^◌, ◌<◌, ◌≡◌, ◌≢◌, ◌⊎◌, arith}
use linux.Base.Int.{ℤ, pos, neg}
use linux.Kernel.Task.{Task}
use linux.Kernel.Sys.{setreuid_task, setregid_task, eperm}

-- Without privilege, and with ids of 16 bits, `sys_setreuid` lets each of the two user ids take only the old real or the old
-- effective id.
setreuid_task-unprivileged :
    (ruid euid : ℤ) (t : Task)
    → t.euid ≢ 0
    → t.uid < 2 ^ 16
    → t.euid < 2 ^ 16
    → let t' = (setreuid_task ruid euid t).1 in
      ((t'.uid ≡ t.uid) ⊎ (t'.uid ≡ t.euid)) × ((t'.euid ≡ t.uid) ⊎ (t'.euid ≡ t.euid))
unfolding setreuid_task
setreuid_task-unprivileged ruid euid t n bu be = (ground arith, ground arith)

-- When `sys_setreuid` fails it has changed neither id.
setreuid_task-error :
    (ruid euid : ℤ) (t : Task)
    → (setreuid_task ruid euid t).0 ≡ neg (pos eperm)
    → ((setreuid_task ruid euid t).1.uid ≡ t.uid) × ((setreuid_task ruid euid t).1.euid ≡ t.euid)
unfolding setreuid_task
setreuid_task-error ruid euid t e = (ground arith, ground arith)

-- When `sys_setregid` fails, for a task with a 16-bit `gid`, it has changed neither group id. (The code does not restore the real
-- one, but without privilege it can only be set to what it is.)
setregid_task-error :
    (rgid egid : ℤ) (t : Task)
    → t.gid < 2 ^ 16
    → (setregid_task rgid egid t).0 ≡ neg (pos eperm)
    → ((setregid_task rgid egid t).1.gid ≡ t.gid) × ((setregid_task rgid egid t).1.egid ≡ t.egid)
unfolding setregid_task
setregid_task-error rgid egid t b e = (ground arith, ground arith)
