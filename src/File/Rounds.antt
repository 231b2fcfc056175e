-- ===== src/File/Rounds.antt =====
-- done/filev6.c: the rounds of the loop of filev6_writebytes.
use file_system_public_copy.Prelude.{
  ℕ, zero, suc, ◌+◌, ◌-◌, ◌*◌, ◌≤◌, ◌≡◌, refl, ap, sym, arith, ltb, ◌==◌, if◌then◌else◌, ok, err,
  fault, ◌∙◌,
}
use file_system_public_copy.Stdio.{Buffer}
use file_system_public_copy.FileSystem.{FileSystem}
use file_system_public_copy.File.{Filev6, Written, filev6_writesector, write_loop}

-- What a round takes.
abbrev taken : ℕ → ℕ
taken total = if ltb 512 total then 512 else total

-- One round.
write_loop_round :
    (rounds : ℕ) (junk : Buffer) (u : FileSystem) (fv6 : Filev6) (buf : Buffer)
    (size written total : ℕ)
    → write_loop (suc rounds) junk u fv6 buf size written total ≡ (
        let n = taken total in
        let out = filev6_writesector junk u fv6 (λ k. buf (written + k)) n (size + written) in
        if total == 0 then (ok 0, fv6, u) else elim out.0 [
          | ok _ ↦ write_loop rounds junk out.2 out.1 buf size (written + n) (total - n)
          | err n ↦ (err n, out.1, out.2)
          | fault ↦ (fault, out.1, out.2)
        ])
unfolding write_loop
write_loop_round rounds junk u fv6 buf size written total = refl

-- With no bytes to go, nothing is done.
no_bytes :
    (rounds : ℕ) (junk : Buffer) (u : FileSystem) (fv6 : Filev6) (buf : Buffer)
    (size written total : ℕ)
    → total ≡ 0
    → write_loop (suc rounds) junk u fv6 buf size written total
      ≡ write_loop zero junk u fv6 buf size written total
unfolding write_loop
no_bytes rounds junk u fv6 buf size written total z = ground (arith, z)

-- For two numbers of rounds that both cover the bytes to write at 512 a round, the loop of
-- filev6_writebytes gives the same: it ends by itself, and never for want of rounds.
pub write_loop_enough :
    (rounds rounds' : ℕ) (junk : Buffer) (u : FileSystem) (fv6 : Filev6) (buf : Buffer)
    (size written total : ℕ)
    → total ≤ 512 * rounds
    → total ≤ 512 * rounds'
    → write_loop rounds junk u fv6 buf size written total
      ≡ write_loop rounds' junk u fv6 buf size written total
write_loop_enough zero zero junk u fv6 buf size written total enough enough' = refl
write_loop_enough zero (suc rounds) junk u fv6 buf size written total enough enough' =
    sym (no_bytes rounds junk u fv6 buf size written total (omega (arith, enough)))
write_loop_enough (suc rounds) zero junk u fv6 buf size written total enough enough' =
    no_bytes rounds junk u fv6 buf size written total (omega (arith, enough'))
write_loop_enough (suc rounds) (suc rounds') junk u fv6 buf size written total enough enough' =
    write_loop_round rounds junk u fv6 buf size written total
    ∙ ap
        (λ (rest : Written). if total == 0 then (ok 0, fv6, u) else elim out.0 [
          | ok _ ↦ rest
          | err n ↦ (err n, out.1, out.2)
          | fault ↦ (fault, out.1, out.2)
        ])
        (write_loop_enough rounds rounds' junk out.2 out.1 buf size (written + taken total)
          (total - taken total) (ground (arith, enough)) (ground (arith, enough')))
    ∙ sym (write_loop_round rounds' junk u fv6 buf size written total)
  where
    out : Written
    out = filev6_writesector junk u fv6 (λ k. buf (written + k)) (taken total) (size + written)
