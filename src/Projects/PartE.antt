-- ===== src/Projects/PartE.antt =====
-- Entries of PROJECTS of scripts/run_oss_batch_after_read_check_elimination.py: from libtiff to
-- wabt.
use desan.Prelude.{true, false, none, some, [], ◌++◌}
use desan.Py.Text.{codes}
use desan.Driver.{Project}

abbrev pub libtiff : Project
libtiff = record {
  archive = some (codes "https://download.osgeo.org/libtiff/tiff-4.6.0.tar.xz");
  repo = none;
  ref = [];
  submodules = false;
  build = some (
      codes "cmake -S . -B build -G Ninja -DCMAKE_C_COMPILER=\"$CC\" "
      ++ codes "-DCMAKE_CXX_COMPILER=\"$CXX\" -DCMAKE_C_FLAGS=\"$CFLAGS\" "
      ++ codes "-DCMAKE_CXX_FLAGS=\"$CXXFLAGS\" -DBUILD_SHARED_LIBS=OFF -Dtiff-tools=ON "
      ++ codes "-Dtiff-tests=OFF -Dtiff-contrib=OFF -Djbig=OFF -Djpeg=OFF -Dlerc=OFF "
      ++ codes "-Dlibdeflate=OFF -Dlzma=OFF -Dwebp=OFF -Dzstd=OFF && cmake --build "
      ++ codes "build --target tiffinfo -j\"$JOBS\"");
  artifact = codes "build/tools/tiffinfo";
  run =
      codes "for i in $(seq 1 \"$LOOPS\"); do \"$APP\" --version >/dev/null 2>&1 || "
      ++ codes "true; done";
}

abbrev pub flac : Project
flac = record {
  archive = some (codes "https://github.com/xiph/flac/archive/refs/tags/1.4.3.tar.gz");
  repo = none;
  ref = [];
  submodules = false;
  build = some (
      codes "cmake -S . -B build -G Ninja -DCMAKE_C_COMPILER=\"$CC\" "
      ++ codes "-DCMAKE_CXX_COMPILER=\"$CXX\" -DCMAKE_C_FLAGS=\"$CFLAGS\" "
      ++ codes "-DCMAKE_CXX_FLAGS=\"$CXXFLAGS\" -DBUILD_CXXLIBS=OFF "
      ++ codes "-DBUILD_EXAMPLES=OFF -DBUILD_PROGRAMS=ON -DBUILD_TESTING=OFF "
      ++ codes "-DBUILD_SHARED_LIBS=OFF -DINSTALL_MANPAGES=OFF -DWITH_OGG=OFF && "
      ++ codes "cmake --build build --target flac -j\"$JOBS\"");
  artifact = codes "build/src/flac/flac";
  run = codes "for i in $(seq 1 \"$LOOPS\"); do \"$APP\" --version >/dev/null; done";
}

abbrev pub x264 : Project
x264 = record {
  archive = none;
  repo = some (codes "https://code.videolan.org/videolan/x264.git");
  ref = codes "stable";
  submodules = false;
  build = some (
      codes "./configure --cc=\"$CC\" --disable-asm --enable-static --disable-opencl "
      ++ codes "&& make -j\"$JOBS\" x264");
  artifact = codes "x264";
  run = codes "for i in $(seq 1 \"$LOOPS\"); do \"$APP\" --version >/dev/null 2>&1; done";
}

abbrev pub libvpx : Project
libvpx = record {
  archive = some (codes "https://github.com/webmproject/libvpx/archive/refs/tags/v1.14.1.tar.gz");
  repo = none;
  ref = [];
  submodules = false;
  build = some (
      codes "CC=\"$CC\" CXX=\"$CXX\" ./configure --disable-examples "
      ++ codes "--disable-unit-tests --disable-docs --disable-install-docs "
      ++ codes "--disable-optimizations --disable-vp9-highbitdepth "
      ++ codes "--target=generic-gnu && make -j\"$JOBS\" libvpx.a");
  artifact = codes "libvpx.a";
  run = codes "for i in $(seq 1 \"$LOOPS\"); do test -f \"$APP\"; done";
}

abbrev pub libxml2 : Project
libxml2 = record {
  archive = some (codes "https://download.gnome.org/sources/libxml2/2.12/libxml2-2.12.7.tar.xz");
  repo = none;
  ref = [];
  submodules = false;
  build = some (
      codes "./configure CC=\"$CC\" CFLAGS=\"$CFLAGS\" --disable-shared "
      ++ codes "--enable-static --without-python --without-lzma --without-zlib "
      ++ codes "--without-iconv && make -j\"$JOBS\" xmllint");
  artifact = codes "xmllint";
  run =
      codes "for i in $(seq 1 \"$LOOPS\"); do \"$APP\" --noout \"$BENCH/input.xml\" "
      ++ codes ">/dev/null; done";
}

abbrev pub expat : Project
expat = record {
  archive =
      some
        (codes "https://github.com/libexpat/libexpat/releases/download/R_2_6_2/expat-2.6.2.tar.xz");
  repo = none;
  ref = [];
  submodules = false;
  build = some (
      codes "cmake -S . -B build -G Ninja -DCMAKE_C_COMPILER=\"$CC\" "
      ++ codes "-DCMAKE_C_FLAGS=\"$CFLAGS\" -DEXPAT_SHARED_LIBS=OFF "
      ++ codes "-DEXPAT_BUILD_TESTS=OFF -DEXPAT_BUILD_TOOLS=ON "
      ++ codes "-DEXPAT_BUILD_EXAMPLES=OFF && cmake --build build --target xmlwf "
      ++ codes "-j\"$JOBS\"");
  artifact = codes "build/xmlwf/xmlwf";
  run =
      codes "for i in $(seq 1 \"$LOOPS\"); do \"$APP\" \"$BENCH/input.xml\" >/dev/null; "
      ++ codes "done";
}

abbrev pub pcre2 : Project
pcre2 = record {
  archive = some (
      codes
        "https://github.com/PCRE2Project/pcre2/releases/download/pcre2-10.43/pcre2-10.43.tar.gz");
  repo = none;
  ref = [];
  submodules = false;
  build = some (
      codes "./configure CC=\"$CC\" CFLAGS=\"$CFLAGS\" --disable-shared "
      ++ codes "--enable-static --disable-jit && make -j\"$JOBS\" pcre2grep");
  artifact = codes "pcre2grep";
  run =
      codes "for i in $(seq 1 \"$LOOPS\"); do \"$APP\" \"needle|value\" "
      ++ codes "\"$BENCH/input.txt\" >/dev/null; done";
}

abbrev pub tree_sitter : Project
tree_sitter = record {
  archive = none;
  repo = some (codes "https://github.com/tree-sitter/tree-sitter.git");
  ref = codes "v0.22.6";
  submodules = false;
  build = some (codes "make -j\"$JOBS\" CC=\"$CC\" CFLAGS=\"$CFLAGS\" libtree-sitter.a");
  artifact = codes "libtree-sitter.a";
  run = codes "for i in $(seq 1 \"$LOOPS\"); do test -f \"$APP\"; done";
}

abbrev pub capstone : Project
capstone = record {
  archive = none;
  repo = some (codes "https://github.com/capstone-engine/capstone.git");
  ref = codes "5.0.1";
  submodules = false;
  build = some (
      codes "cmake -S . -B build -G Ninja -DCMAKE_C_COMPILER=\"$CC\" "
      ++ codes "-DCMAKE_CXX_COMPILER=\"$CXX\" -DCMAKE_C_FLAGS=\"$CFLAGS\" "
      ++ codes "-DCMAKE_CXX_FLAGS=\"$CXXFLAGS\" -DCAPSTONE_BUILD_SHARED=OFF "
      ++ codes "-DCAPSTONE_BUILD_CSTOOL=ON -DCAPSTONE_BUILD_TESTS=OFF && cmake "
      ++ codes "--build build --target cstool -j\"$JOBS\"");
  artifact = codes "build/cstool";
  run =
      codes "for i in $(seq 1 \"$LOOPS\"); do \"$APP\" x64 \"55 48 8b 05 b8 13 00 00\" "
      ++ codes ">/dev/null; done";
}

abbrev pub wabt : Project
wabt = record {
  archive = none;
  repo = some (codes "https://github.com/WebAssembly/wabt.git");
  ref = codes "1.0.34";
  submodules = true;
  build = some (
      codes "cmake -S . -B build -G Ninja -DCMAKE_C_COMPILER=\"$CC\" "
      ++ codes "-DCMAKE_CXX_COMPILER=\"$CXX\" -DCMAKE_C_FLAGS=\"$CFLAGS\" "
      ++ codes "-DCMAKE_CXX_FLAGS=\"$CXXFLAGS\" -DBUILD_TESTS=OFF && cmake --build "
      ++ codes "build --target wasm-objdump -j\"$JOBS\"");
  artifact = codes "build/wasm-objdump";
  run = codes "for i in $(seq 1 \"$LOOPS\"); do \"$APP\" --version >/dev/null; done";
}
