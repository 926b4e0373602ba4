-- ===== src/Files/Blocks/Write.antt =====
-- The chain that the loop of `fs_write` of kernel/fs.c builds.
use rink_os.Prelude.{
  ℕ, suc, ◌+◌, ◌-◌, ◌<◌, ◌≡◌, ◌≢◌, inl, inr, sym, refl, ◌∙◌, true, false, Bool-cases, List, [], ◌∷◌,
  arith, length, min, ◌==◌, if◌then◌else◌,
}
use native.Mathlib.Decide.{ℕ_discrete}
use rink_os.Disk.{Disk}
use rink_os.Fat.{bytes_per_sector, end_cluster, cluster_eoc, cluster_to_lba, fat_read}
use rink_os.Fat.Room.{has}
use rink_os.Fat.Chain.{IsData, Chain, Chain-IsData}
use rink_os.Files.Blocks.{block}
use rink_os.Files.Blocks.Step.{
  PrevOk, IsSystem, stepped, stepped-other, stepped-new, stepped-prev, stepped-block,
  stepped-sector, stepped-system,
}

abbrev pub chunk_at : List ℕ → ℕ → ℕ
chunk_at bytes written = min (length bytes - written) bytes_per_sector

-- The clusters hold the bytes from `written` on, in blocks.
abbrev pub Contents : Disk → List ℕ → ℕ → List ℕ → Type 0
Contents d bytes written [] = Unit
Contents d bytes written (x ∷ xs) =
    (d (cluster_to_lba x) ≡ block bytes written (chunk_at bytes written))
    × Contents d bytes (written + chunk_at bytes written) xs

-- `n` rounds from the disk `d` have led to `d'`, having written the clusters `cs`.
pub record Written (n first prev written : ℕ) (bytes : List ℕ) (d : Disk) (f : ℕ) (d' : Disk)
    (cs : List ℕ) : Type 0 where
  pub count : length cs ≡ n
  pub start : first ≢ 0 → f ≡ first
  pub chain : Chain d' (if first == 0 then f else fat_read d' prev) cs
  pub contents : Contents d' bytes written cs
  pub fresh : (a : ℕ) → has a cs ≡ true → fat_read d a ≡ 0
  pub table : (a : ℕ) → a < end_cluster → has a cs ≡ false → a ≢ prev → fat_read d' a ≡ fat_read d a
  pub sectors : (a : ℕ) → IsData a → has a cs ≡ false → d' (cluster_to_lba a) ≡ d (cluster_to_lba a)
  pub system : (l : ℕ) → IsSystem l → d' l ≡ d l

pub Written-zero :
    (first prev written : ℕ) (bytes : List ℕ) (d : Disk)
    → PrevOk d first prev
    → Written 0 first prev written bytes d first d []
Written-zero first prev written bytes d ok = record {
  count = refl;
  start = λ _. refl;
  chain = ground arith;
  contents = tt;
  fresh = λ a h. cc;
  table = λ a lt h ne. refl;
  sectors = λ a h i. refl;
  system = λ l h. refl;
}

module _ (n first prev c : ℕ) (bytes : List ℕ) (written : ℕ) (d d' : Disk) (f : ℕ) (cs : List ℕ)
    (ok : PrevOk d first prev) (data_c : IsData c) (free_c : fat_read d c ≡ 0)
    (rest : Written n
      (if first == 0 then c else first)
      c
      (written + chunk_at bytes written)
      bytes
      (stepped d first prev c bytes written ok data_c free_c)
      f
      d'
      cs) where
  abbrev d₁ : Disk
  d₁ = stepped d first prev c bytes written ok data_c free_c

  new : fat_read d₁ c ≡ cluster_eoc
  new = stepped-new d first prev c bytes written ok data_c free_c

  absent : has c cs ≡ false
  absent = elim (Bool-cases (has c cs)) [
    | inl here ↦ absurd (omega (arith, rest.fresh c here, new))
    | inr gone ↦ gone
  ]

  goes_on : ((if first == 0 then c else first) == 0) ≡ false
  goes_on = ground arith

  into : first ≢ 0 → fat_read d₁ prev ≡ c
  into = stepped-prev d first prev c bytes written ok data_c free_c

  keeps : (a : ℕ) → a < end_cluster → a ≢ c → a ≢ prev → fat_read d₁ a ≡ fat_read d a
  keeps a lt = stepped-other d first prev c bytes written ok data_c free_c a (omega arith)

  prev-absent : first ≢ 0 → has prev cs ≡ false
  prev-absent ne = elim (Bool-cases (has prev cs)) [
    | inl here ↦ absurd (omega (arith, rest.fresh prev here, into ne))
    | inr gone ↦ gone
  ]

  head : (if first == 0 then f else fat_read d' prev) ≡ c
  head = elim (ℕ_discrete first 0) [
    | yes z ↦ ground (arith, rest.start (ground arith))
    | no ne ↦
        let other : prev ≢ c = λ e. ground arith in
        ground (arith, rest.table prev (ground arith) (prev-absent ne) other, into ne)
  ]

  -- A cluster written later is none that this round has used.
  later : (a : ℕ) → has a cs ≡ true → fat_read d a ≡ 0
  later a i =
      let da : IsData a = Chain-IsData d' (fat_read d' c) cs a (rw goes_on at rest.chain) i in
      let nc : a ≢ c = λ e. ground (arith, absent) in
      let np : a ≢ prev = λ e. ground (arith, prev-absent) in
      sym (keeps a da.1 nc np) ∙ rest.fresh a i

  pub Written-suc : Written (suc n) first prev written bytes d f d' (c ∷ cs)
  Written-suc = record {
    count = omega (arith, rest.count);
    start = λ ne. ground (arith, rest.start (ground arith));
    chain = (head, data_c, absent, rw goes_on at rest.chain);
    contents = (
      rest.sectors c data_c absent ∙ stepped-block d first prev c bytes written ok data_c free_c,
      rest.contents,
    );
    fresh = λ a h. elim (Bool-cases (a == c)) [
      | inl here ↦ ground arith
      | inr other ↦ later a (ground arith)
    ];
    table =
        λ a lt h ne. rest.table a lt (ground arith) (ground arith) ∙ keeps a lt (ground arith) ne;
    sectors = λ a da h.
        rest.sectors a da (ground arith)
        ∙ stepped-sector d first prev c bytes written ok data_c free_c a da (ground arith);
    system =
        λ l h. rest.system l h ∙ stepped-system d first prev c bytes written ok data_c free_c l h;
  }
