-- ===== src/Norns/Indexing.antt =====
-- Voice numbers that are none, and what the methods that do not check them make of them.
use softcut_py.Base.{ℕ, suc, ◌<◌, ◌≤◌, ◌≡◌, refl, length, some, arith}
use softcut_py.Base.Int.{pos, ◌-ℤ◌, suc-pred_ℤ}
use softcut_py.Base.Slice.{index_of}
use softcut_py.Base.Exec.{ok, err, index_error, ◌>>=◌, or_raise, gets, modify}
use softcut_py.Platform.{Platform}
use softcut_py.Engine.{voice_at, cut_to}
use softcut_py.Engine.Methods.{sync, position_at}
use softcut_py.Norns.{Host, voice, position, voice_sync}

last_index : {m : ℕ} (n : ℕ) → m ≡ suc n → index_of m (pos 0 -ℤ pos 1) ≡ some n
unfolding ◌-ℤ◌
last_index n e = ground arith

suc_index : {m : ℕ} (k : ℕ) → k < m → index_of m (pos (suc k) -ℤ pos 1) ≡ some k
suc_index k lt = rw (suc-pred_ℤ k) (ground arith)

module _ (p : Platform) where
  open p use {F, fadd}

  position-zero : (x : F) (h : Host p) → position p (pos 0) x h ≡ (err index_error, h)
  unfolding position voice ◌>>=◌ ◌-ℤ◌
  position-zero x h = refl

  -- With at least one voice, `voice_sync` takes number 0 for the last voice: it returns, having cut that voice
  -- to the position of the source voice plus the offset and done nothing else, while `position` refuses
  -- number 0 with IndexError and changes nothing.
  pub voice_sync-zero :
      (n k : ℕ) (x : F) (h : Host p)
      → length h.engine.voices ≡ suc n
      → k ≤ n
      → (voice_sync p (pos 0) (pos (suc k)) x h
          ≡ (ok tt, record h { engine = cut_to p n (fadd (position_at p k h.engine) x) h.engine }))
        × (position p (pos 0) x h ≡ (err index_error, h))
  unfolding voice_sync sync voice_at or_raise ◌>>=◌ gets modify
  voice_sync-zero n k x h size inside =
      let zero_place : index_of (length h.engine.voices) (pos 0 -ℤ pos 1) ≡ some n =
        last_index n size in
      let lead_place : index_of (length h.engine.voices) (pos (suc k) -ℤ pos 1) ≡ some k =
        suc_index k (omega (arith, size)) in
      (rw (zero_place, lead_place) refl, position-zero x h)
