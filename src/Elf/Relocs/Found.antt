-- ===== src/Elf/Relocs/Found.antt =====
-- All relocations that visitRelocs and ELF::parse of source/DasHLE/Binary/ELF.cpp find in a file.
use das_hle.Base.{ℕ, ◌≡◌, ap, ◌∙◌, subst, inl, inr, Bool, true, false, List, ◌++◌, ok, >>=-eq-ok}
use das_hle.Elf.{Elf, Poly, RelocInfo}
use das_hle.Elf.Dynamic.{is_64_bits}
use das_hle.Elf.Relocs.{
  visit_rel_array, visit_rela_array, visit_table, visit_rel, visit_rela, visit_plt, visit_jmprel,
  visit_relocs,
}
use das_hle.Elf.Relocs.Extends.{append_assoc}
use das_hle.Elf.Relocs.Entries.{AreEntries-relocs}
use das_hle.Elf.Relocs.Arrays.{Adds, visit_rel_array-Adds, visit_rela_array-Adds}
use das_hle.Elf.Relocs.Visits.{with_entries-Adds, visit_table-Adds, visit_plt-Adds}
use das_hle.Elf.Relocs.Tables.{
  IsArray, IsRelArray, IsRelaArray, IsPltArray, Kind, IsTable, AreRelocs,
}

module _ (elf : Elf) (rs : List RelocInfo) where
  -- What the tables mean does not depend on the relocations found so far.
  pub IsTable-relocs :
      (kind : Kind) (a b c : ℕ) (found : List RelocInfo)
      → ((x y z : Poly) → kind (record elf { relocs = rs }) x y z found → kind elf x y z found)
      → IsTable kind a b c (record elf { relocs = rs }) found
      → IsTable kind a b c elf found
  unfolding is_64_bits
  IsTable-relocs kind a b c found f (inl lacking) = inl lacking
  IsTable-relocs kind a b c found f (inr (x, y, z, p, q, r, k)) = inr (x, y, z, p, q, r, f x y z k)

  pub IsArray-relocs :
      (rela : Bool) (a b c : Poly) (found : List RelocInfo)
      → IsArray (record elf { relocs = rs }) rela a b c found
      → IsArray elf rela a b c found
  IsArray-relocs rela a b c found h = record {
    at = h.at;
    bytes = h.bytes;
    each = h.each;
    is_at = h.is_at;
    is_bytes = h.is_bytes;
    is_each = h.is_each;
    counts = h.counts;
    are_entries = AreEntries-relocs elf rs rela h.at _ found h.are_entries;
  }

  pub IsPltArray-relocs :
      (a b c : Poly) (found : List RelocInfo)
      → IsPltArray (record elf { relocs = rs }) a b c found
      → IsPltArray elf a b c found
  IsPltArray-relocs a b c found h = record {
    at = h.at;
    bytes = h.bytes;
    type = h.type;
    rela = h.rela;
    is_at = h.is_at;
    is_bytes = h.is_bytes;
    is_type = h.is_type;
    type_known = h.type_known;
    are_entries = AreEntries-relocs elf rs h.rela h.at _ found h.are_entries;
  }

  pub AreRelocs-relocs :
      (found : List RelocInfo) → AreRelocs (record elf { relocs = rs }) found → AreRelocs elf found
  AreRelocs-relocs found h = record {
    rel = h.rel;
    rela = h.rela;
    plt = h.plt;
    is_all = h.is_all;
    is_rel =
        IsTable-relocs IsRelArray 17 18 19 h.rel (λ a b c. IsArray-relocs false a b c h.rel)
          h.is_rel;
    is_rela =
        IsTable-relocs IsRelaArray 7 8 9 h.rela (λ a b c. IsArray-relocs true a b c h.rela)
          h.is_rela;
    is_plt =
        IsTable-relocs IsPltArray 23 2 20 h.plt (λ a b c. IsPltArray-relocs a b c h.plt) h.is_plt;
  }

pub visit_relocs-Adds :
    (elf next : Elf) → visit_relocs elf ≡ ok next → Adds elf next (AreRelocs elf)
unfolding visit_relocs visit_rel visit_rela visit_jmprel
visit_relocs-Adds elf next h =
    let (a, e, h1) = >>=-eq-ok (visit_rel elf) _ h in
    let (b, f, h2) = >>=-eq-ok (visit_rela a) _ h1 in
    joined elf a b next
      (with_entries-Adds IsRelArray 17 18 19 (visit_table visit_rel_array) elf a
        (visit_table-Adds false visit_rel_array visit_rel_array-Adds) e)
      (with_entries-Adds IsRelaArray 7 8 9 (visit_table visit_rela_array) a b
        (visit_table-Adds true visit_rela_array visit_rela_array-Adds) f)
      (with_entries-Adds IsPltArray 23 2 20 visit_plt b next visit_plt-Adds h2)
  where
    grown :
        (elf mid next : Elf) (xs ys : List RelocInfo)
        → mid ≡ record elf { relocs = elf.relocs ++ xs }
        → next ≡ record mid { relocs = mid.relocs ++ ys }
        → next ≡ record elf { relocs = elf.relocs ++ (xs ++ ys) }
    grown elf mid next xs ys e f =
        f
        ∙ ap (λ (x : Elf). record x { relocs = x.relocs ++ ys }) e
        ∙ ap (λ rs. record elf { relocs = rs }) (append_assoc elf.relocs xs ys)

    joined :
        (elf a b next : Elf)
        → Adds elf a (IsTable IsRelArray 17 18 19 elf)
        → Adds a b (IsTable IsRelaArray 7 8 9 a)
        → Adds b next (IsTable IsPltArray 23 2 20 b)
        → Adds elf next (AreRelocs elf)
    joined elf a b next x y z =
        let to_b : b ≡ record elf { relocs = elf.relocs ++ (x.found ++ y.found) } =
          grown elf a b x.found y.found x.is_next y.is_next in
        record {
          found = (x.found ++ y.found) ++ z.found;
          is_next = grown elf b next (x.found ++ y.found) z.found to_b z.is_next;
          is_right = record {
            rel = x.found;
            rela = y.found;
            plt = z.found;
            is_all = append_assoc x.found y.found z.found;
            is_rel = x.is_right;
            is_rela =
                IsTable-relocs elf _ IsRelaArray 7 8 9 y.found
                  (λ k l m. IsArray-relocs elf _ true k l m y.found)
                  (subst (λ v. IsTable IsRelaArray 7 8 9 v y.found) x.is_next y.is_right);
            is_plt =
                IsTable-relocs elf _ IsPltArray 23 2 20 z.found
                  (λ k l m. IsPltArray-relocs elf _ k l m z.found)
                  (subst (λ v. IsTable IsPltArray 23 2 20 v z.found) to_b z.is_right);
          };
        }
