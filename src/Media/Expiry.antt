-- ===== src/Media/Expiry.antt =====
-- src/kv_store_mgr.cpp: kv_expire for a pair that has expired, by what the expiry queue returns.
use nvmkv.Prelude.{ℕ, ◌≡◌, true, ◌&&◌, not, ltb, ◌==◌, refl, ap, ◌∙◌}
use nvmkv.Error.{object_not_found, Status, success, failure}
use nvmkv.Write.{KvHeader}
use nvmkv.Media.{
  Media, ExpiryMode, kv_disable_expiry, kv_arbitrary_expiry, kv_global_expiry, expire_at, kv_expire,
}
use nvmkv.Media.Quiet.{IsQuiet, pair_expired}

-- The status of `kv_expire` where the pair has expired, by what the expiry queue returned.
abbrev pub queue_status : Status → Status
queue_status success = failure object_not_found
queue_status (failure c) = failure c

module _ (m : Media) (q : IsQuiet m) where
  expire_at-queue_status :
      (hdr : KvHeader) (lba curtime : ℕ) (w : m.World) (s : Status)
      → (ltb hdr.expiry curtime && not (hdr.expiry == 0)) ≡ true
      → (m.update_expiry_queue lba hdr w).0 ≡ s
      → (expire_at m hdr lba true (curtime, w)).0 ≡ queue_status s
  unfolding expire_at
  expire_at-queue_status hdr lba curtime w success old e = rw (old, e) refl
  expire_at-queue_status hdr lba curtime w (failure c) old e = rw (old, e) refl

  pub kv_expire-queue_status :
      (mode : ExpiryMode) (hdr : KvHeader) (lba : ℕ) (w : m.World)
      → pair_expired mode hdr q.now ≡ true
      → (v : m.World) × ((kv_expire m mode hdr lba true w).0
          ≡ queue_status ((m.update_expiry_queue lba hdr v).0))
  unfolding kv_expire
  kv_expire-queue_status kv_disable_expiry hdr lba w old = absurd (cc)
  kv_expire-queue_status kv_arbitrary_expiry hdr lba w old = (
    (m.time w).1,
    expire_at-queue_status hdr lba ((m.time w).0) ((m.time w).1) _
        (ap (λ (t : ℕ). ltb hdr.expiry t && not (hdr.expiry == 0)) (q.clock w) ∙ old) refl,
  )
  kv_expire-queue_status kv_global_expiry hdr lba w old = (
    (m.time w).1,
    expire_at-queue_status hdr lba ((m.time w).0) ((m.time w).1) _
        (ap (λ (t : ℕ). ltb hdr.expiry t && not (hdr.expiry == 0)) (q.clock w) ∙ old) refl,
  )

module _ (m : Media) (q : IsQuiet m)
    (queued : (lba : ℕ) (hdr : KvHeader) (w : m.World)
      → (m.update_expiry_queue lba hdr w).0 ≡ success) where
  expire_at_queued :
      (hdr : KvHeader) (lba curtime : ℕ) (w : m.World)
      → (ltb hdr.expiry curtime && not (hdr.expiry == 0)) ≡ true
      → (expire_at m hdr lba true (curtime, w)).0 ≡ failure object_not_found
  unfolding expire_at
  expire_at_queued hdr lba curtime w old = rw (old, queued lba hdr w) refl

  pub kv_expire-queued :
      (mode : ExpiryMode) (hdr : KvHeader) (lba : ℕ) (w : m.World)
      → pair_expired mode hdr q.now ≡ true
      → (kv_expire m mode hdr lba true w).0 ≡ failure object_not_found
  unfolding kv_expire
  kv_expire-queued kv_disable_expiry hdr lba w old = absurd (cc)
  kv_expire-queued kv_arbitrary_expiry hdr lba w old =
      expire_at_queued hdr lba ((m.time w).0) ((m.time w).1)
        (ap (λ (t : ℕ). ltb hdr.expiry t && not (hdr.expiry == 0)) (q.clock w) ∙ old)
  kv_expire-queued kv_global_expiry hdr lba w old =
      expire_at_queued hdr lba ((m.time w).0) ((m.time w).1)
        (ap (λ (t : ℕ). ltb hdr.expiry t && not (hdr.expiry == 0)) (q.clock w) ∙ old)
