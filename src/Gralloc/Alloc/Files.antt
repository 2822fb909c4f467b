-- ===== src/Gralloc/Alloc/Files.antt =====
-- Buffers in files of their own: what the file holds, and how an allocation fails.
use xylitol.Common.{
  ℕ, ◌+◌, ◌*◌, ◌/◌, ◌%◌, ◌^◌, ◌≤◌, ◌<◌, ◌≡◌, ◌≢◌, refl, ap, ◌∙◌, arith, true, false, Option, none,
  some, ◌∷◌, ◌==◌,
}
use xylitol.Common.Int.{ℤ, pos, ltb_ℤ, eqb_ℤ_refl, to_int}
use xylitol.AnonymousFile.{os_create_anonymous_file}
use xylitol.AnonymousFile.Outcomes.{start}
use xylitol.Gralloc.{
  to_size, Handle, mapped, file_created, pool_created, buffer_created, History, Env, private_handle,
  validate,
}
use xylitol.Gralloc.Mapper.Balance.{map_buffer_lem}
use xylitol.Gralloc.Framebuffer.{Module, Format}
use xylitol.Gralloc.Alloc.{
  Allocated, pixel_format, bytes_per_row, share_buffer, map_file, with_file, alloc_rows,
  gralloc_alloc,
}
use xylitol.Gralloc.Alloc.Sizes.{row_lem, bpp_lem, sizes_lem}

not_null_lem : (a : ℕ) → a ≢ 0 → (a == 0) ≡ false
not_null_lem a h = ground arith

module _ (env : Env) where
  -- The calls for a buffer behind the creation of its file succeed.
  pub record IsServed (w h : ℤ) (size stride wl_format : ℕ) (fd size_map : ℤ) (m : Module)
      (log : History) : Type 0 where
    pub first : ℕ
    pub client : ℕ
    pub pool : ℕ
    pub wl_buffer : ℕ
    pub second : ℕ
    pub maps : env.mmap log fd (to_size size_map) ≡ some first
    pub client_is : m.wayland_client ≡ some client
    pub pool_is : env.create_pool (mapped fd (to_size size_map) first ∷ log) fd size_map ≡ pool
    pub buffer_is :
        env.create_buffer
          (pool_created pool fd size_map ∷ mapped fd (to_size size_map) first ∷ log)
          pool
          w
          h
          stride
          wl_format
        ≡ wl_buffer
    pub not_null : wl_buffer ≢ 0
    pub maps_again :
        env.mmap
          (buffer_created pool w h stride wl_format wl_buffer
            ∷ pool_created pool fd size_map
            ∷ mapped fd (to_size size_map) first
            ∷ log)
          fd
          (to_size (to_int (pos size)))
        ≡ some second

  -- The two steps up to `share_buffer`.
  to_share :
      (w h : ℤ) (size stride wl_format : ℕ) (fd size_map : ℤ) (m : Module) (log : History)
      (first client : ℕ)
      → ltb_ℤ fd (pos 0) ≡ false
      → env.mmap log fd (to_size size_map) ≡ some first
      → m.wayland_client ≡ some client
      → with_file env w h size stride wl_format fd size_map m log
        ≡ some (
            share_buffer env w h size stride wl_format fd size_map m
              (mapped fd (to_size size_map) first ∷ log))
  unfolding with_file map_file
  to_share w h size stride wl_format fd size_map m log first client good maps client_is =
      let shared =
        share_buffer env w h size stride wl_format fd size_map m
          (mapped fd (to_size size_map) first ∷ log) in
      rw (good, maps)
        (ap (λ (o : Option ℕ). elim o [ none ↦ none | some client ↦ some shared ]) client_is)

  -- What a buffer that is served ends with.
  abbrev pub served_as :
      (w h : ℤ) (size stride wl_format : ℕ) (fd size_map : ℤ) (m : Module) (log : History)
      → IsServed w h size stride wl_format fd size_map m log
      → Allocated
  served_as w h size stride wl_format fd size_map m log served = record {
    status = pos 0;
    buffer =
        some (record (private_handle env fd (to_int (pos size)) 0 served.pool served.wl_buffer) {
          base = (served.second + to_size (pos 0)) % 2 ^ 64;
        });
    stride = some (to_int (pos stride));
    target = m;
    log =
        mapped fd (to_size (to_int (pos size))) served.second
        ∷ buffer_created served.pool w h stride wl_format served.wl_buffer
        ∷ pool_created served.pool fd size_map
        ∷ mapped fd (to_size size_map) served.first
        ∷ log;
  }

  served_lem :
      (w h : ℤ) (size stride wl_format : ℕ) (fd size_map : ℤ) (m : Module) (log : History)
      (served : IsServed w h size stride wl_format fd size_map m log)
      → share_buffer env w h size stride wl_format fd size_map m
          (mapped fd (to_size size_map) served.first ∷ log)
        ≡ served_as w h size stride wl_format fd size_map m log served
  unfolding share_buffer private_handle
  served_lem w h size stride wl_format fd size_map m log served =
      let hnd = private_handle env fd (to_int (pos size)) 0 served.pool served.wl_buffer in
      let handle_mapped = map_buffer_lem env hnd served.second _ refl served.maps_again in
      simp
        (
          served.pool_is,
          served.buffer_is,
          not_null_lem served.wl_buffer served.not_null,
          handle_mapped,
        )
        refl

  -- The code from the sizes on, for a buffer outside the framebuffer.
  rows_lem :
      (w h : ℤ) (format : Format) (bpp wl_format bpr : ℕ) (m : Module) (log : History)
      → pixel_format format ≡ some (bpp, wl_format)
      → bytes_per_row w bpp ≡ some bpr
      → let size_map = to_int (pos (to_size h * (bpr / bpp) % 2 ^ 64)) in
        let fd = (os_create_anonymous_file (env.system log) size_map start).0 in
        gralloc_alloc env w h format false true m log
        ≡ with_file env w h
            (bpr * to_size h % 2 ^ 64)
            (bpr / bpp)
            wl_format
            fd
            size_map
            m
            (file_created size_map fd ∷ log)
  unfolding gralloc_alloc alloc_rows
  rows_lem w h format bpp wl_format bpr m log known row = rw (known, row) refl

  -- Where the calls for a buffer may fail before its handle is made.
  pub data Failure (w h : ℤ) (stride wl_format : ℕ) (fd size_map : ℤ) (m : Module) (log : History)
      : Type 0 where
    no_file : ltb_ℤ fd (pos 0) ≡ true → Failure w h stride wl_format fd size_map m log
    no_mapping :
        ltb_ℤ fd (pos 0) ≡ false
        → env.mmap log fd (to_size size_map) ≡ none
        → Failure w h stride wl_format fd size_map m log
    no_buffer :
        (first client pool : ℕ)
        → ltb_ℤ fd (pos 0) ≡ false
        → env.mmap log fd (to_size size_map) ≡ some first
        → m.wayland_client ≡ some client
        → env.create_pool (mapped fd (to_size size_map) first ∷ log) fd size_map ≡ pool
        → env.create_buffer
            (pool_created pool fd size_map ∷ mapped fd (to_size size_map) first ∷ log)
            pool
            w
            h
            stride
            wl_format
          ≡ 0
        → Failure w h stride wl_format fd size_map m log

  no_buffer_lem :
      (w h : ℤ) (size stride wl_format : ℕ) (fd size_map : ℤ) (m : Module) (log : History)
      (pool : ℕ)
      → env.create_pool log fd size_map ≡ pool
      → env.create_buffer (pool_created pool fd size_map ∷ log) pool w h stride wl_format ≡ 0
      → (share_buffer env w h size stride wl_format fd size_map m log).status ≡ pos 0
        × (share_buffer env w h size stride wl_format fd size_map m log).buffer ≡ none
  unfolding share_buffer
  no_buffer_lem w h size stride wl_format fd size_map m log pool e k = simp (e, k) (refl, refl)

  fails_lem :
      (w h : ℤ) (size stride wl_format : ℕ) (fd size_map : ℤ) (m : Module) (log : History)
      → Failure w h stride wl_format fd size_map m log
      → (a : Allocated) × (with_file env w h size stride wl_format fd size_map m log ≡ some a)
        × (a.status ≡ pos 0)
        × (a.buffer ≡ none)
  unfolding with_file map_file
  fails_lem w h size stride wl_format fd size_map m log (no_file bad) = rw bad (_, refl, refl, refl)
  fails_lem w h size stride wl_format fd size_map m log (no_mapping good fails) =
      rw (good, fails) (_, refl, refl, refl)
  fails_lem w h size stride wl_format fd size_map m log
        (no_buffer first client pool good maps client_is pool_is null) =
      (
        _,
        to_share w h size stride wl_format fd size_map m log first client good maps client_is,
        (no_buffer_lem w h size stride wl_format fd size_map m _ pool pool_is null).0,
        (no_buffer_lem w h size stride wl_format fd size_map m _ pool pool_is null).1,
      )

  -- When the file of a buffer cannot be created or mapped, or the compositor answers with a null
  -- buffer, `gralloc_alloc` still returns 0, the status of a success, and leaves no handle.
  pub gralloc_alloc-Failure :
      (w h : ℤ) (format : Format) (bpp wl_format bpr : ℕ) (m : Module) (log : History)
      → pixel_format format ≡ some (bpp, wl_format)
      → bytes_per_row w bpp ≡ some bpr
      → let size_map = to_int (pos (to_size h * (bpr / bpp) % 2 ^ 64)) in
        let fd = (os_create_anonymous_file (env.system log) size_map start).0 in
        Failure w h (bpr / bpp) wl_format fd size_map m (file_created size_map fd ∷ log)
        → (a : Allocated) × (gralloc_alloc env w h format false true m log ≡ some a)
          × (a.status ≡ pos 0)
          × (a.buffer ≡ none)
  gralloc_alloc-Failure w h format bpp wl_format bpr m log known row failure =
      rw (rows_lem w h format bpp wl_format bpr m log known row)
        (fails_lem w h (bpr * to_size h % 2 ^ 64) (bpr / bpp) wl_format _ _ m _ failure)

  -- A picture of `w` by `h` pixels, neither 0, whose rows take `bpr` bytes and whose size is below
  -- 2 ^ 31: where the file and all that follows is granted, `gralloc_alloc` returns 0 with a valid
  -- handle of bpr * h bytes and the stride bpr / bpp, which holds the width. The file behind it is
  -- created with the stride, a number of pixels, for each row, and so is shorter than the handle.
  pub gralloc_alloc-short :
      (w h : ℕ) (format : Format) (bpp wl_format bpr : ℕ) (m : Module) (log : History)
      → 0 < w
      → 0 < h
      → bpr * h < 2 ^ 31
      → pixel_format format ≡ some (bpp, wl_format)
      → bytes_per_row (pos w) bpp ≡ some bpr
      → let size_map = to_int (pos (to_size (pos h) * (bpr / bpp) % 2 ^ 64)) in
        let fd = (os_create_anonymous_file (env.system log) size_map start).0 in
        ltb_ℤ fd (pos 0) ≡ false
        → IsServed
            (pos w)
            (pos h)
            (bpr * to_size (pos h) % 2 ^ 64)
            (bpr / bpp)
            wl_format
            fd
            size_map
            m
            (file_created size_map fd ∷ log)
        → (a : Allocated) × (hnd : Handle) × (gralloc_alloc env
              (pos w)
              (pos h)
              format
              false
              true
              m
              log
            ≡ some a)
          × (a.status ≡ pos 0)
          × (a.buffer ≡ some hnd)
          × (validate env (some hnd) ≡ pos 0)
          × (a.stride ≡ some (pos (bpr / bpp)))
          × (w ≤ bpr / bpp)
          × (hnd.size ≡ pos (bpr * h))
          × (size_map ≡ pos (h * (bpr / bpp)))
          × (h * (bpr / bpp) < bpr * h)
  unfolding private_handle validate
  gralloc_alloc-short w h format bpp wl_format bpr m log wide high small known row good served =
      let size_map = to_int (pos (to_size (pos h) * (bpr / bpp) % 2 ^ 64)) in
      let fd = (os_create_anonymous_file (env.system log) size_map start).0 in
      let sizes =
        sizes_lem w h bpp bpr wide high small (bpp_lem format bpp wl_format known)
          (row_lem w bpp bpr row).0 in
      (
        served_as (pos w) (pos h) (bpr * to_size (pos h) % 2 ^ 64) (bpr / bpp) wl_format fd size_map
            m (file_created size_map fd ∷ log) served,
        _,
        rows_lem (pos w) (pos h) format bpp wl_format bpr m log known row
            ∙ to_share (pos w) (pos h) (bpr * to_size (pos h) % 2 ^ 64) (bpr / bpp) wl_format fd
                size_map m (file_created size_map fd ∷ log) served.first served.client good
                served.maps served.client_is
            ∙ ap some (
                served_lem (pos w) (pos h) (bpr * to_size (pos h) % 2 ^ 64) (bpr / bpp) wl_format fd
                  size_map m (file_created size_map fd ∷ log) served),
        refl,
        refl,
        rw (eqb_ℤ_refl env.native_handle_size, eqb_ℤ_refl env.num_ints) refl,
        ap some sizes.0,
        sizes.1,
        sizes.2,
        sizes.3,
        sizes.4,
      )
