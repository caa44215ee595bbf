-- ===== src/Vm/Racing.antt =====
-- Two calls of `AcquireLock` that overlap.
use dvm.Base.{
  ℕ, suc, ℤ, Bool, false, none, some, [], ◌≡◌, ◌≢◌, refl, sym, subst, ◌∙◌, arith, trim_space, atoi,
}
use dvm.Vm.State.{read_pid}
use dvm.Vm.Race.{
  Files, update, Pc, idle, created, holding, Move, begin, create, exists, write, read, stale,
  removed, Processes, moved, Schedule, here, call, content, Solo, done, next, create_file,
  write_pid, is_live,
}

pub update_self : {A : Type 0} (f : ℕ → A) (n : ℕ) (a : A) → update f n a n ≡ a
unfolding update
update_self f n a = ground arith

pub update_other : {A : Type 0} (f : ℕ → A) (n k : ℕ) (a : A) → n ≢ k → update f n a k ≡ f k
unfolding update
update_other f n k a ne = ground arith

module _ (alive : ℤ → Bool) where
  Schedule_trans :
      {s t u : Processes} → Schedule alive s t → Schedule alive t u → Schedule alive s u
  Schedule_trans a here = a
  Schedule_trans a (call b n e mv) = call (Schedule_trans a b) n e mv

  -- What a process does alone, as a part of a schedule: no other process moves.
  record Acted (t : Processes) (n : ℕ) (m : Files) (p : Pc) : Type 0 where
    after : Processes
    schedule : Schedule alive t after
    files_after : after.files ≡ m
    pc_after : after.pc n ≡ p
    others : (k : ℕ) → n ≢ k → after.pc k ≡ t.pc k

  acted :
      (t : Processes) (n : ℕ) {m : Files} {p : Pc} {m' : Files} {p' : Pc}
      → t.files ≡ m
      → t.pc n ≡ p
      → Solo alive n m p m' p'
      → Acted t n m' p'
  acted t n ef ep done = record {
    after = t;
    schedule = here;
    files_after = ef;
    pc_after = ep;
    others = λ k ne. refl;
  }
  acted t n ef ep (next {m'} {m''} {p'} {p''} solo mv) =
      let a = acted t n ef ep solo in
      record {
        after = moved a.after n m'' p'';
        schedule =
            call a.schedule n a.pc_after
              (subst (λ f. Move alive n f p' m'' p'') (sym a.files_after) mv);
        files_after = refl;
        pc_after = update_self a.after.pc n p'';
        others = λ k ne. update_other a.after.pc n k p'' ne ∙ a.others k ne;
      }

  -- The first process creates the file and has not yet written to it.
  creates :
      (n : ℕ) (m : Files) → m.lock ≡ none → Solo alive n m idle (create_file m) (created m.fresh)
  creates n m e = next (next done begin) (create e)

  nothing_is_stale : is_live alive (read_pid (some [])) ≡ false
  unfolding read_pid trim_space atoi
  nothing_is_stale = refl

  empty_is_stale : (m : Files) → is_live alive (read_pid (content (create_file m))) ≡ false
  empty_is_stale m = rw (update_self m.texts m.fresh []) nothing_is_stale

  -- The second one takes the empty file for stale.
  abbrev taken : ℕ → Files → Files
  taken n m = write_pid n (suc m.fresh) (create_file (record (create_file m) { lock = none }))

  takes : (n : ℕ) (m : Files) → Solo alive n (create_file m) idle (taken n m) holding
  takes n m =
      next
        (next
          (next (next (next (next (next done begin) (exists refl)) read) (stale (empty_is_stale m)))
            (removed refl))
          (create refl))
        write

  -- Whatever processes live, from every state in which there is no lock file and two processes have
  -- not yet begun, the two calls of `AcquireLock` can overlap so that both of them return the lock.
  pub Schedule-both :
      (s : Processes) (n k : ℕ)
      → n ≢ k
      → s.files.lock ≡ none
      → s.pc n ≡ idle
      → s.pc k ≡ idle
      → (t : Processes) × Schedule alive s t × (t.pc n ≡ holding) × (t.pc k ≡ holding)
  Schedule-both s n k ne e en ek =
      let a = acted s n refl en (creates n s.files e) in
      let b = acted a.after k a.files_after (a.others k ne ∙ ek) (takes k s.files) in
      let c =
        acted b.after n b.files_after (b.others n (λ q. ne (sym q)) ∙ a.pc_after)
          (next done write) in
      (
        c.after,
        Schedule_trans (Schedule_trans a.schedule b.schedule) c.schedule,
        c.pc_after,
        c.others k ne ∙ b.pc_after,
      )
