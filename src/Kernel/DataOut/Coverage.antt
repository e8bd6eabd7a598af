-- ===== src/Kernel/DataOut/Coverage.antt =====
-- Source/Kernel/iSCSIVirtualHBA.cpp: the data-out PDUs of ProcessDataOutForTask carry the requested part of
-- the data, each byte once.
use i_scsiinitiator.Base.{
  ℕ, zero, suc, ◌+◌, ◌-◌, ◌%◌, ◌^◌, ◌≤◌, ◌<◌, ◌==◌, leb, true, false, some, List, [], ◌∷◌, ◌++◌,
  append-nil, append_assoc, ◌≡◌, refl, ap, sym, ◌∙◌, subst, arith, Bool-cases, inl, inr,
}
use i_scsiinitiator.Kernel.State.{Env, Event, Hba}
use i_scsiinitiator.Kernel.Activation.{incremented}
use i_scsiinitiator.Kernel.DataOut.{Transfer, send_data, next_size}
use i_scsiinitiator.Kernel.Present.{Present}
use i_scsiinitiator.Kernel.DataOut.Rounds.{
  Chunk, part, part-append, Covers, done, next, chunk_at, chunks_of, Round, send_next-Round,
}

-- The data segments put together.
unfoldable pub bytes_of : List Chunk → List ℕ
bytes_of [] = []
bytes_of (chunk ∷ chunks) = chunk.bytes ++ bytes_of chunks

Covers-carries :
    {content : ℕ → ℕ} {segment : ℕ} (offset len data_sn : ℕ) (chunks : List Chunk)
    → Covers content segment offset len data_sn chunks
    → bytes_of chunks ≡ part content offset len
unfolding bytes_of
Covers-carries {content} offset _ data_sn _ (done _ _) = unfold part in refl
Covers-carries {content} offset _ data_sn _ (next _ size left _ chunks pos fits rest) =
    ap (λ l. part content offset size ++ l)
      (Covers-carries (offset + size) left (suc data_sn) chunks rest)
    ∙ part-append content offset size left

module _ (content : ℕ → ℕ) (env : Env) (x : Transfer)
    (sends_all : (log : List Event) (socket : ℕ) → env.send_error log socket ≡ 0)
    (reads : (log : List Event) (offset n : ℕ)
      → env.data_at log x.task offset n ≡ part content offset n)
    (segment_pos : 0 < x.segment) (segment_fits : x.segment < 2 ^ 24) where
  -- The loop ended, and the PDUs that it added to the log.
  pub record IsCovered (fuel offset len data_sn : ℕ) (h : Hba) : Type 0 where
    pub result : Hba
    pub chunks : List Chunk
    pub returns : send_data fuel env x offset len data_sn h ≡ some result
    pub covers : Covers content x.segment offset len data_sn chunks
    pub carries : bytes_of chunks ≡ part content offset len
    pub adds : chunks_of result.log ≡ chunks_of h.log ++ chunks

  next_size-bounds :
      (len : ℕ)
      → (len == 0) ≡ false
      → (0 < next_size x len) × (next_size x len ≤ x.segment) × (next_size x len ≤ len)
  unfolding next_size
  next_size-bounds len e = (ground arith, ground arith, ground arith)

  next_size-final : (len : ℕ) → leb len x.segment ≡ (len - next_size x len == 0)
  unfolding next_size
  next_size-final len = ground (arith, segment_pos)

  Covers-next :
      (offset len data_sn : ℕ) (chunks : List Chunk)
      → (len == 0) ≡ false
      → Covers content x.segment
          (offset + next_size x len)
          (len - next_size x len)
          (suc data_sn)
          chunks
      → Covers content x.segment offset len data_sn (chunk_at content x offset len data_sn ∷ chunks)
  Covers-next offset len data_sn chunks e rest =
      subst
        (λ (n : ℕ).
          Covers content x.segment offset n data_sn
            (chunk_at content x offset len data_sn ∷ chunks))
        whole
        (rw (next_size-final len) (
          next offset (next_size x len) (len - next_size x len) data_sn chunks
            (next_size-bounds len e).0 (next_size-bounds len e).1 rest))
    where
      whole : next_size x len + (len - next_size x len) ≡ len
      whole = omega (arith, (next_size-bounds len e).2)

  -- Where every PDU can be sent, readBytes gives the bytes of the task's data that it is asked for, the
  -- connection is there, the target's longest data segment is not 0 and fits its field, and the offsets and
  -- numbers stay below 2 ^ 32: with fuel above the length, the loop ends, and the data-out PDUs that it adds
  -- to the log carry in their data segments the `len` bytes of the task's data from `offset` on, each at the
  -- offset that its header states, in order and without a gap, numbered from `data_sn` on, none empty or
  -- longer than the segment, and the last one alone marked as final; their segments put together are those
  -- bytes.
  pub send_data-IsCovered :
      (fuel offset len data_sn : ℕ) (h : Hba)
      → len < fuel
      → offset + len < 2 ^ 32
      → data_sn + len < 2 ^ 32
      → Present x.sid x.cid h
      → IsCovered fuel offset len data_sn h
  unfolding send_data incremented
  send_data-IsCovered zero offset len data_sn h enough end numbers p = absurd (omega arith)
  send_data-IsCovered (suc fuel) offset len data_sn h enough end numbers p =
      elim (Bool-cases (len == 0)) [
        | inl e ↦ record {
          result = h;
          chunks = [];
          returns = rw e refl;
          carries = rw (zero_len e) (unfold bytes_of part in refl);
          covers =
              subst (λ (n : ℕ). Covers content x.segment offset n data_sn []) (ground (arith, e))
                (done offset data_sn);
          adds = sym (append-nil _);
        }
        | inr e ↦
            let b = next_size-bounds len e in
            let rest =
              send_data-IsCovered fuel (offset + next_size x len) (len - next_size x len)
                (suc data_sn) _ (omega (arith, b)) (omega (arith, b)) (omega (arith, b))
                (round e).there in
            record {
              result = rest.result;
              chunks = _;
              returns = rw (e, (round e).sends, offset_whole e, number_whole e) rest.returns;
              carries =
                  Covers-carries offset len data_sn _
                    (Covers-next offset len data_sn rest.chunks e rest.covers);
              covers = Covers-next offset len data_sn rest.chunks e rest.covers;
              adds =
                  rest.adds
                  ∙ ap (λ (l : List Chunk). l ++ rest.chunks) (round e).chunks
                  ∙ append_assoc (chunks_of h.log) (chunk_at content x offset len data_sn ∷ [])
                      rest.chunks;
            }
      ]
    where
      zero_len : (len == 0) ≡ true → len ≡ 0
      zero_len e = ground (arith, e)

      round : (len == 0) ≡ false → Round content env x offset len data_sn h
      round e =
          send_next-Round content env x sends_all reads segment_pos segment_fits offset len data_sn
            h p e

      offset_whole :
          (len == 0) ≡ false → (offset + next_size x len) % 2 ^ 32 ≡ offset + next_size x len
      offset_whole e = omega (arith, next_size-bounds len e)

      number_whole : (len == 0) ≡ false → (data_sn + 1) % 2 ^ 32 ≡ suc data_sn
      number_whole e = ground (arith, e)
