-- ===== src/Lease/Audit.antt =====
-- What an answer to a challenge tells of the shard that gave it.
use sohocloud_protocol.Prelude.{ℕ, ◌≡◌, ◌↔◌, ◌∙◌, refl, sym, List, length}
use sohocloud_protocol.Prelude.Int.{ℤ}
use sohocloud_protocol.Golang.Slice.{Sha256}
use sohocloud_protocol.Lease.{
  ProofChallenge, answered, proof_over_shard, proof_digest, proof_preimage,
}
use sohocloud_protocol.Lease.Proof.{
  InRange, Sized, window, proof_over_shard-InRange, proof_preimage_inj,
}

answered_eq :
    (sha : Sha256) (n n' : List ℕ) (o o' l l' : ℤ) (w w' : List ℕ)
    → (n ≡ n') × (o ≡ o') × (l ≡ l') × (w ≡ w')
    → answered (proof_digest sha n o l w) ≡ answered (proof_digest sha n' o' l' w')
answered_eq sha n n' o o' l l' w w' p = rw (p.0, p.1, p.2, p.3) refl

answered_inj : (d d' : List ℕ) → answered d ≡ answered d' → d ≡ d'
answered_inj d d' h = cc

-- The bytes under the digest of the right answer.
abbrev pub question : List ℕ → ProofChallenge → List ℕ
question sealed ch = proof_preimage ch.nonce ch.offset ch.length (window sealed ch)

-- SHA-256 tells two byte strings apart.
abbrev pub TellsApart : Sha256 → List ℕ → List ℕ → Type 0
TellsApart sha x y = sha.digest x ≡ sha.digest y → x ≡ y

module _ (sha : Sha256) (sealed sealed' : List ℕ) (ch ch' : ProofChallenge) (z : Sized sealed ch)
    (z' : Sized sealed' ch') (r : InRange sealed ch) (r' : InRange sealed' ch') where
  -- Two answers, of shards of less than 2^63 bytes to challenges in range with nonces of 16 bytes, are
  -- the same exactly if the nonce, the offset, the length and the bytes of the window are, where
  -- SHA-256 does not give the two inputs one digest: an answer tells the bytes of its window, and a
  -- recorded answer does not serve for another challenge.
  pub same_answer_iff :
      length ch.nonce ≡ 16
      → length ch'.nonce ≡ 16
      → TellsApart sha (question sealed ch) (question sealed' ch')
      → (proof_over_shard sha sealed ch ≡ proof_over_shard sha sealed' ch') ↔ (
          (ch.nonce ≡ ch'.nonce)
          × (ch.offset ≡ ch'.offset)
          × (ch.length ≡ ch'.length)
          × (window sealed ch ≡ window sealed' ch'))
  unfolding proof_digest
  same_answer_iff n n' apart =
      let right = proof_over_shard-InRange sha sealed ch z r in
      let right' = proof_over_shard-InRange sha sealed' ch' z' r' in
      (
        λ e.
            proof_preimage_inj ch.nonce ch'.nonce ch.offset ch'.offset ch.length ch'.length
              (window sealed ch) (window sealed' ch') (n, n') (z.offset_fits, z'.offset_fits)
              (z.length_fits, z'.length_fits) (apart (answered_inj _ _ (sym right ∙ e ∙ right'))),
        λ p. right ∙ answered_eq sha _ _ _ _ _ _ _ _ p ∙ sym right',
      )
