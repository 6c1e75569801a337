-- ===== src/Osx/Socket/Transfer.antt =====
-- What a write puts into a pipe, and when a read ends.
use lib_streamlabs_ipc.Base.{
  ℕ, zero, suc, ◌+◌, ◌-◌, ◌<◌, ◌≤◌, ◌≡◌, ◌⊎◌, append_assoc, append-nil, refl, sym, ap, subst, ◌∙◌,
  Bool, true, false, ◌||◌, Option, none, some, [], ◌∷◌, ◌++◌, length, take, drop, arith, leb, ◌==◌,
  ok, Bool-cases, inl, inr, take-append-drop, length-drop,
}
use lib_streamlabs_ipc.Bytes.{Bytes, splice}
use lib_streamlabs_ipc.Os.{success}
use lib_streamlabs_ipc.Osx.Channel.{SocketType}
use lib_streamlabs_ipc.Osx.Client.{blocked, came_to}
use lib_streamlabs_ipc.Osx.Socket.{
  System, Socket, write_only, read_write, read_write_nonblocking, pipe_name, size_chunks,
  wants_more, read_more, read_round, read_loop, read, finish_read, write_chunks, write, close_fd,
  reopen, write_fd, close_any, open_for_read,
}

-- The pipe `name` can be opened and takes all that is written; `contents` is what it has taken.
pub record Accepts {ℓ} {W : Type ℓ} (system : System W) (name : Bytes) : Type ℓ where
  pub contents : W → Bytes
  pub fd : ℕ
  pub opens :
      (w : W)
      → (w' : W) × (system.open_pipe name write_only w ≡ (some fd, w')) × (contents w' ≡ contents w)
  pub closes : (n : ℕ) (w : W) → contents (system.close n w) ≡ contents w
  pub writes :
      (bs : Bytes) (w : W)
      → (w' : W) × (system.write fd bs w ≡ (some (length bs), w'))
        × (contents w' ≡ contents w ++ bs)

drop_shorter :
    (fuel b : ℕ) (bs : Bytes)
    → suc (length bs) ≤ suc fuel
    → length (drop size_chunks (b ∷ bs)) ≤ fuel
drop_shorter fuel b bs h = omega (arith, length-drop size_chunks (b ∷ bs))

module _ {ℓ} {W : Type ℓ} (system : System W) (name : Bytes) (a : Accepts system name) where
  close_fd-contents : (fd : Option ℕ) (w : W) → a.contents (close_fd system fd w) ≡ a.contents w
  close_fd-contents none w = refl
  close_fd-contents (some zero) w = refl
  close_fd-contents (some (suc n)) w = a.closes (suc n) w

  abbrev Delivers : W → Bytes → Option ℕ × Bool × W → Type 0
  Delivers w bs r = (r.1 ≡ true) × (a.contents r.2 ≡ a.contents w ++ bs)

  Delivers-more :
      (w w' : W) (bs : Bytes) (r : Option ℕ × Bool × W)
      → a.contents w' ≡ a.contents w ++ take size_chunks bs
      → Delivers w' (drop size_chunks bs) r
      → Delivers w bs r
  Delivers-more w w' bs r e (good, f) = (
    good,
    f
        ∙ ap (λ c. c ++ drop size_chunks bs) e
        ∙ append_assoc (a.contents w) (take size_chunks bs) (drop size_chunks bs)
        ∙ ap (λ c. a.contents w ++ c) (take-append-drop size_chunks bs),
  )

  write_chunks_step :
      (fuel b : ℕ) (bs : Bytes) (fd : Option ℕ) (w w1 w2 : W) (n : ℕ)
      → reopen system fd name w ≡ (some a.fd, w1)
      → system.write a.fd (take size_chunks (b ∷ bs)) w1 ≡ (some n, w2)
      → write_chunks system (suc fuel) fd name (b ∷ bs) w
        ≡ write_chunks system fuel none name (drop size_chunks (b ∷ bs)) (system.close a.fd w2)
  unfolding write_chunks
  write_chunks_step fuel b bs fd w w1 w2 n opened wrote =
      ap
        (λ (x : Option ℕ × W).
          let (ret, w3) = write_fd system x.0 (take size_chunks (b ∷ bs)) x.1 in
          elim ret as (λ r. Option ℕ × Bool × W) [
            | none ↦ (x.0, false, w3)
            | some m ↦
                write_chunks system fuel none name (drop size_chunks (b ∷ bs))
                  (close_any system x.0 w3)
          ])
        opened
      ∙ ap
          (λ (x : Option ℕ × W). elim x.0 as (λ r. Option ℕ × Bool × W) [
            | none ↦ (some a.fd, false, x.1)
            | some m ↦
                write_chunks system fuel none name (drop size_chunks (b ∷ bs))
                  (system.close a.fd x.1)
          ])
          wrote

  reopens :
      (fd : Option ℕ) (w : W)
      → (fd ≡ none) ⊎ (fd ≡ some a.fd)
      → (w' : W) × (reopen system fd name w ≡ (some a.fd, w')) × (a.contents w' ≡ a.contents w)
  reopens fd w (inl e) = rw e (a.opens w)
  reopens fd w (inr e) = rw e (w, refl, refl)

  write_chunks-contents :
      (fuel : ℕ) (bs : Bytes) (fd : Option ℕ) (w : W)
      → length bs ≤ fuel
      → (fd ≡ none) ⊎ (fd ≡ some a.fd)
      → Delivers w bs (write_chunks system fuel fd name bs w)
  unfolding write_chunks
  write_chunks-contents fuel [] fd w h c = (refl, sym (append-nil (a.contents w)))
  write_chunks-contents zero (b ∷ bs) fd w h c = absurd (omega arith)
  write_chunks-contents (suc fuel) (b ∷ bs) fd w h c =
      let (w1, opened, same) = reopens fd w c in
      let (w2, wrote, more) = a.writes (take size_chunks (b ∷ bs)) w1 in
      let w3 = system.close a.fd w2 in
      let rest = drop size_chunks (b ∷ bs) in
      subst (λ r. Delivers w (b ∷ bs) r)
        (sym (
          write_chunks_step fuel b bs fd w w1 w2 (length (take size_chunks (b ∷ bs))) opened wrote))
        (Delivers-more w w3 (b ∷ bs) (write_chunks system fuel none name rest w3)
          (a.closes a.fd w2 ∙ more ∙ ap (λ c. c ++ take size_chunks (b ∷ bs)) same)
          (write_chunks-contents fuel rest none w3 (drop_shorter fuel b bs h) (inl refl)))

-- A write to a pipe that takes all it is given reports success, and the pipe has taken the buffer: once
-- and in order, in one piece or in chunks.
pub write-contents {ℓ} :
    {W : Type ℓ} (system : System W) (s : Socket) (t : SocketType)
    (a : Accepts system (pipe_name s t)) (buffer : Bytes) (w : W)
    → ((write system s buffer t w).1 ≡ success)
      × (a.contents (write system s buffer t w).2 ≡ a.contents w ++ buffer)
unfolding write
write-contents system s t a buffer w =
    let w0 = close_fd system s.fd_write w in
    let kept = close_fd-contents system (pipe_name s t) a s.fd_write w in
    let (w1, opened, same) = a.opens w0 in
    elim (Bool-cases (leb (length buffer) size_chunks)) [
      | inl e ↦
          let (w2, wrote, more) = a.writes buffer w1 in
          rw (write, opened, e, opened, wrote) (refl, more ∙ ap (λ c. c ++ buffer) (same ∙ kept))
      | inr e ↦
          let (good, all) =
            write_chunks-contents system (pipe_name s t) a (length buffer) buffer (some a.fd) w1
              (omega arith) (inr refl) in
          rw (write, opened, e, opened, good) (refl, all ∙ ap (λ c. c ++ buffer) (same ∙ kept))
    ]

module _ {ℓ} {W : Type ℓ} (system : System W) where
  -- A failing read in the inner loop is tried again for ever, where the pipe stays empty.
  read_more-blocked :
      (fuel fd : ℕ) (buf : Bytes) (offset : ℕ) (ret : Option ℕ) (w : W)
      → wants_more system ret ≡ true
      → system.read fd size_chunks w ≡ came_to (ok (none, w))
      → read_more system fuel fd buf offset ret w ≡ blocked
  unfolding read_more
  read_more-blocked zero fd buf offset ret w h e = refl
  read_more-blocked (suc fuel) fd buf offset ret w h e =
      rw (read_more, h, e, read_more-blocked fuel fd buf offset none w refl e)

  -- A read that is not to block, and whose first piece is a full chunk or 8 bytes less, does not return
  -- while the reads behind it find the pipe empty and fail, whatever the fuel is.
  pub read_blocked :
      (fuel inner fd : ℕ) (s : Socket) (buffer bs : Bytes) (t : SocketType) (w w1 w2 : W)
      → system.open_pipe (pipe_name s t) read_write_nonblocking w ≡ (some fd, w1)
      → system.read fd (length buffer) w1 ≡ came_to (ok (some bs, w2))
      → (length bs ≡ size_chunks - 8) ⊎ (length bs ≡ size_chunks)
      → system.read fd size_chunks w2 ≡ came_to (ok (none, w2))
      → read system fuel inner s buffer false t w ≡ blocked
  unfolding read read_loop read_round wants_more
  read_blocked zero inner fd s buffer bs t w w1 w2 opened first full empty = rw opened
  read_blocked (suc fuel) inner fd s buffer bs t w w1 w2 opened first full empty = rw (
    read,
    open_for_read,
    opened,
    opened,
    read_loop,
    read_round,
    first,
    read_more-blocked inner fd (splice buffer 0 bs) (0 + length bs) (some (length bs)) w2
        (ground (arith, full)) empty,
  )

  -- A blocking read whose first piece is neither empty nor as long as a full chunk, with or without
  -- its 8 bytes of length, returns that piece at the start of the buffer, with fuel for one round of
  -- each loop.
  pub read_once :
      (fuel inner fd : ℕ) (s : Socket) (buffer bs : Bytes) (t : SocketType) (w w1 w2 : W)
      → system.open_pipe (pipe_name s t) read_write w ≡ (some fd, w1)
      → system.read fd (length buffer) w1 ≡ came_to (ok (some bs, w2))
      → 0 < length bs
      → (length bs == size_chunks - 8 || length bs == size_chunks) ≡ false
      → read system (suc fuel) (suc inner) s buffer true t w
        ≡ came_to (ok (record s { fd_read_b = some fd }, success, splice buffer 0 bs, w2))
  unfolding read read_loop read_round read_more wants_more finish_read
  read_once fuel inner fd s buffer [] t w w1 w2 opened first nonempty short = absurd (omega arith)
  read_once fuel inner fd s buffer (b ∷ bs) t w w1 w2 opened first nonempty short = rw (
    read, open_for_read, opened, opened, read_loop, read_round, read_more, wants_more, first, short,
  )
