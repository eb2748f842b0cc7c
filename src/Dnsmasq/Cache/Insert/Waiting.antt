-- ===== src/Dnsmasq/Cache/Insert/Waiting.antt =====
-- What the scans of src/cache.c in http1.0/src/dnsmasq/dnsmasq-2.45 leave of an insertion.
use mydns.Prelude.{ℕ, ◌≡◌, refl, ◌∙◌, List, [], ◌∷◌, Bool, true, false, set, if◌then◌else◌}
use mydns.Dnsmasq.Cache.Chain.{Flags, Crec, scan_forward}
use mydns.Dnsmasq.Cache.Find.{unlinked}
use mydns.Dnsmasq.Cache.Insert.{
  Store, cache_free, give_back, chain_at, scan_table, bucket, cache_scan_free,
}

-- The entries that wait for `cache_end_insert`, and `insert_error`, are as before.
pub record IsWaiting (old new : Store) : Type 0 where
  pub chain_is : new.new_chain ≡ old.new_chain
  pub error_is : new.insert_error ≡ old.insert_error

pub IsWaiting-trans : (a b c : Store) → IsWaiting a b → IsWaiting b c → IsWaiting a c
IsWaiting-trans a b c h k = record {
  chain_is = k.chain_is ∙ h.chain_is;
  error_is = k.error_is ∙ h.error_is;
}

give_back-IsWaiting : (freed : List Crec) (st : Store) → IsWaiting st (give_back freed st)
unfolding give_back cache_free
give_back-IsWaiting [] st = record { chain_is = refl; error_is = refl }
give_back-IsWaiting (c ∷ freed) st =
    let rest = give_back-IsWaiting freed (cache_free c (record st { lru = unlinked c st.lru })) in
    record { chain_is = rest.chain_is; error_is = rest.error_is }

if_lem : {R : Type 0} (P : R → Type 0) (b : Bool) {x y : R} → P x → P y → P (if b then x else y)
if_lem P true h k = h
if_lem P false h k = k

module _ (mix_tab : ℕ → ℕ) where
  pub cache_scan_free-IsWaiting :
      (name addr : List ℕ) (now : ℕ) (flags : Flags) (st : Store)
      → IsWaiting st (cache_scan_free mix_tab name addr now flags st).1
  unfolding cache_scan_free
  cache_scan_free-IsWaiting name addr now flags st =
      let i = bucket mix_tab name st in
      let one = scan_forward name now flags st.uids (chain_at st.table i) in
      let whole = scan_table addr now flags st.table in
      let by_name =
        give_back-IsWaiting one.freed (record st { table = set st.table i one.chain }) in
      let by_table = give_back-IsWaiting whole.1 (record st { table = whole.0 }) in
      if_lem (λ (r : Bool × Store). IsWaiting st r.1) flags.forward
        (record { chain_is = by_name.chain_is; error_is = by_name.error_is })
        (record { chain_is = by_table.chain_is; error_is = by_table.error_is })
