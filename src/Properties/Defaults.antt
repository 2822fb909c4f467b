-- ===== src/Properties/Defaults.antt =====
-- The properties that initProperties writes, in its order.
use xylitol.Common.{List, [], ◌∷◌, Bytes, codes}

abbrev pub defaults : List (Bytes × Bytes)
defaults =
    (codes "ro.factorytest", codes "0")
    ∷ (codes "ro.build.display.id", codes "Shashlik")
    ∷ (codes "ro.build.version.incremental", codes "1234567")
    ∷ (codes "ro.build.version.sdk", codes "19")
    ∷ (codes "ro.build.version.codename", codes "REL")
    ∷ (codes "ro.build.version.release", codes "4.4.2")
    ∷ (codes "ro.build.version.date", codes "Thu Jun 18 17:49:04 PDT 2015")
    ∷ (codes "ro.build.type", codes "eng")
    ∷ (codes "ro.build.tags", codes "test-keys")
    ∷ (codes "ro.product.model", codes "sdk")
    ∷ (codes "ro.product.name", codes "sdk")
    ∷ (codes "ro.build.user", codes "generic")
    ∷ (codes "ro.build.host", codes "generic")
    ∷ (codes "ro.product.brand", codes "generic")
    ∷ (codes "ro.product.manufacturer", codes "generic")
    ∷ (codes "ro.product.device", codes "generic")
    ∷ (codes "ro.build.product", codes "generic")
    ∷ (codes "ro.kernel.qemu", codes "0")
    ∷ (codes "ro.kernel.android.checkjni", codes "1")
    ∷ (codes "ro.secure", codes "0")
    ∷ (codes "ro.debuggable", codes "0")
    ∷ (codes "ro.config.low_ram", codes "0")
    ∷ (codes "ro.config.headless", codes "0")
    ∷ (codes "ro.zygote.disable_gl_preload", codes "false")
    ∷ (codes "debug.egl.trace", codes "error")
    ∷ (codes "debug.egl.callstack", codes "0")
    ∷ (codes "debug.sf.showupdates", codes "0")
    ∷ (codes "debug.sf.ddms", codes "0")
    ∷ (codes "debug.sf.no_hw_vsync", codes "0")
    ∷ (codes "ro.bq.gpu_to_cpu_unsupported", codes "0")
    ∷ (codes "ro.hardware.hwcomposer", codes "shashlik")
    ∷ (codes "ro.hardware.gralloc", codes "shashlik")
    ∷ (codes "log.redirect-stdio", codes "false")
    ∷ (codes "dalvik.vm.checkjni", codes "1")
    ∷ (codes "dalvik.vm.execution-mode", codes "int:jit")
    ∷ (codes "dalvik.vm.stack-trace-file", codes "")
    ∷ (codes "dalvik.vm.check-dex-sum", codes "false")
    ∷ (codes "dalvik.vm.enableassertions", codes "false")
    ∷ (codes "dalvik.vm.jniopts", codes "")
    ∷ (codes "dalvik.vm.heapstartsize", codes "8m")
    ∷ (codes "dalvik.vm.heapgrowthlimit", codes "192m")
    ∷ (codes "dalvik.vm.heapsize", codes "512m")
    ∷ (codes "dalvik.vm.heaptargetutilization", codes "0.75")
    ∷ (codes "dalvik.vm.heapminfree", codes "512k")
    ∷ (codes "dalvik.vm.heapmaxfree", codes "8m")
    ∷ (codes "dalvik.vm.dexopt-flags", codes "")
    ∷ (codes "dalvik.vm.lockprof.threshold", codes "")
    ∷ (codes "dalvik.vm.extra-opts", codes "")
    ∷ (codes "dalvik.vm.jit.codecachesize", codes "")
    ∷ (codes "dalvik.vm.jit.op", codes "")
    ∷ (codes "dalvik.vm.jit.method", codes "")
    ∷ (codes "persist.sys.language", codes "en")
    ∷ (codes "persist.sys.country", codes "US")
    ∷ (codes "ro.sf.lcd_density", codes "200")
    ∷ (codes "system_init.startsensorservice", codes "1")
    ∷ (codes "sys.shutdown.requested", codes "0")
    ∷ (codes "config.disable_systemui", codes "0")
    ∷ (codes "config.disable_storage", codes "1")
    ∷ (codes "config.disable_media", codes "1")
    ∷ (codes "config.disable_location", codes "1")
    ∷ (codes "config.disable_noncore", codes "1")
    ∷ (codes "config.disable_network", codes "1")
    ∷ (codes "persist.sys.strictmode.disable", codes "1")
    ∷ []
